-- ===== src/Crates/Drain.antt =====
-- `drain_to` of `EasyBuf` on a buffer that holds enough bytes.
use spotify_connect_scrobble.Prelude.{
  ℕ, ◌≤◌, ◌≡◌, sym, ap, ◌∙◌, subst, ◌++◌, [], length, take, drop, returns, append_assoc, append-nil,
  take-append-drop, length-take,
}
use spotify_connect_scrobble.Prelude.Words.{Bytes}
use spotify_connect_scrobble.Crates.{EasyBuf}

module _ ⦃buffer : EasyBuf⦄ where
  pub drain_to-append :
      (n : ℕ) (buf more : Bytes)
      → n ≤ length buf
      → buffer.drain_to n (buf ++ more) ≡ returns (take n buf, drop n buf ++ more)
  drain_to-append n buf more h =
      subst (λ k. buffer.drain_to k (buf ++ more) ≡ returns (take n buf, drop n buf ++ more))
        (length-take n buf h)
        (ap (buffer.drain_to (length (take n buf))) (
            ap (λ x. x ++ more) (sym (take-append-drop n buf))
            ∙ append_assoc (take n buf) (drop n buf) more)
          ∙ buffer.drain_to_front (take n buf) (drop n buf ++ more))

  pub drain_to_lem :
      (n : ℕ) (buf : Bytes)
      → n ≤ length buf
      → buffer.drain_to n buf ≡ returns (take n buf, drop n buf)
  drain_to_lem n buf h =
      rw (append-nil buf, append-nil (drop n buf)) at (drain_to-append n buf [] h)
