-- ===== src/Util/SpotifyId/Raw.antt =====
-- Ids and their sixteen raw bytes (core/src/util/spotify_id.rs).
use spotify_connect_scrobble.Prelude.{
  ◌⊎◌, inl, inr, Bool-cases, ◌==◌, ◌≡◌, ◌≢◌, refl, ap₂, ◌∙◌, [], ◌++◌, length, All, All-take,
  All-drop, take, drop, true, ◌==◌, take-length-append, drop-length-append, length-append,
  take-append-drop, length-take, length-drop, append-nil, returns, panics, arith,
}
use spotify_connect_scrobble.Prelude.Words.{Bytes, IsByte, be_value, be_bytes}
use spotify_connect_scrobble.Prelude.Words.Digits.{
  be_value-be_bytes, digits_of-number_from, number_from-lt,
}
use spotify_connect_scrobble.Crates.{ByteOrder}
use spotify_connect_scrobble.Util.Int128.{IsU128, from_parts}
use spotify_connect_scrobble.Util.SpotifyId.{SpotifyId, from_raw, to_raw}

module _ ⦃order : ByteOrder⦄ where
  pub to_raw-be_bytes :
      (id : SpotifyId)
      → IsU128 id.number
      → to_raw id ≡ be_bytes 8 id.number.high ++ be_bytes 8 id.number.low
  unfolding to_raw
  to_raw-be_bytes id h =
      rw
        (order.write_u64_be id.number.high h.high_fits, order.write_u64_be id.number.low h.low_fits)

  from_raw-append :
      (high low : Bytes)
      → length high ≡ 8
      → length low ≡ 8
      → from_raw (high ++ low)
        ≡ returns (record { number = from_parts (be_value high) (be_value low) })
  unfolding from_raw
  from_raw-append high low h l =
      let front = rw h at (take-length-append high low) in
      let back = rw h at (drop-length-append high low) in
      let short : take 8 low ≡ low = rw (append-nil, l) at (take-length-append low []) in
      let high_read = rw append-nil at (order.read_u64_be high [] h) in
      let low_read = rw append-nil at (order.read_u64_be low [] l) in
      let size : (length (high ++ low) == 16) ≡ true = ground (arith, length-append high low) in
      rw (size, front, back, short, high_read, low_read)

  -- Reading back the raw bytes of an id gives the id.
  pub from_raw-to_raw : (id : SpotifyId) → IsU128 id.number → from_raw (to_raw id) ≡ returns id
  from_raw-to_raw id h =
      rw
        (
          to_raw-be_bytes id h,
          from_raw-append (be_bytes 8 id.number.high) (be_bytes 8 id.number.low) refl refl,
        )
        (ap₂ (λ high low. returns (record { number = from_parts high low }))
          (be_value-be_bytes 8 id.number.high (omega (arith, h.high_fits)))
          (be_value-be_bytes 8 id.number.low (omega (arith, h.low_fits))))

  from_raw_cases :
      (raw : Bytes)
      → All IsByte raw
      → (length raw ≡ 16
          → (id : SpotifyId) × (from_raw raw ≡ returns id) × IsU128 id.number × (to_raw id ≡ raw))
        × (length raw ≢ 16 → from_raw raw ≡ panics)
  from_raw_cases raw h = (
    λ e.
        let high = take 8 raw in
        let low = drop 8 raw in
        let high_size : length high ≡ 8 = length-take 8 raw (omega arith) in
        let low_size : length low ≡ 8 = omega (arith, length-drop 8 raw) in
        let high_bytes = All-take IsByte 8 raw h in
        let low_bytes = All-drop IsByte 8 raw h in
        let fits : IsU128 (from_parts (be_value high) (be_value low)) = record {
          high_fits = rw high_size at (number_from-lt 256 high high_bytes);
          low_fits = rw low_size at (number_from-lt 256 low low_bytes);
        } in
        (
          record { number = from_parts (be_value high) (be_value low) },
          rw (take-append-drop 8 raw) at (from_raw-append high low high_size low_size),
          fits,
          to_raw-be_bytes _ fits
              ∙ ap₂ ◌++◌ (rw high_size at (digits_of-number_from 256 0 high high_bytes))
                  (rw low_size at (digits_of-number_from 256 0 low low_bytes))
              ∙ take-append-drop 8 raw,
        ),
    λ ne. unfold from_raw in ground arith,
  )

  -- Sixteen bytes are read as an id in range whose raw bytes they are, and a slice of any other
  -- length panics.
  pub from_raw_lem :
      (raw : Bytes)
      → All IsByte raw
      → ((length raw ≡ 16)
          × ((id : SpotifyId) × (from_raw raw ≡ returns id) × IsU128 id.number × (to_raw id ≡ raw)))
        ⊎ ((length raw ≢ 16) × (from_raw raw ≡ panics))
  from_raw_lem raw h = elim (Bool-cases (length raw == 16)) [
    | inl e ↦
        let size : length raw ≡ 16 = ground (arith, e) in inl (size, (from_raw_cases raw h).0 size)
    | inr e ↦
        let size : length raw ≢ 16 = ground (arith, e) in inr (size, (from_raw_cases raw h).1 size)
  ]
