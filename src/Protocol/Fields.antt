-- ===== src/Protocol/Fields.antt =====
-- The fields that generated code of protocol/src writes, one after the other, and how they are read.
use spotify_connect_scrobble.Prelude.{
  ℕ, ◌^◌, ◌<◌, ◌≡◌, refl, ap, ◌∙◌, List, [], ◌∷◌, ◌++◌, Option, none, some, Bool, false, All,
}
use spotify_connect_scrobble.Prelude.Words.{Bytes}
use spotify_connect_scrobble.Prelude.Int.{ℤ, IsI32}
use spotify_connect_scrobble.Protocol.{
  Content, length_delimited, varint, Field, IsTagged, Runtime, merge_fields, write_string,
  write_varint,
}

-- What holds of a value, if there is one.
abbrev pub OnSome : {A : Type 0} → (A → Type 0) → Option A → Type 0
OnSome P none = Unit
OnSome P (some a) = P a

module _ (R : Runtime) {A : Type 0} (merge : ℕ → Content → A → Option A) where
  -- An optional field in front, where `with_field` is the message with it.
  pub merge-write_string :
      (number : ℕ) (with_field : Option Bytes → A) (P : Bytes → Type 0) (rest : List Field)
      → ((text : Bytes)
          → P text
          → merge number (length_delimited text) (with_field none) ≡ some (with_field (some text)))
      → (o : Option Bytes) → OnSome P o
      → merge_fields merge (write_string R number o ++ rest) (with_field none)
        ≡ merge_fields merge rest (with_field o)
  unfolding merge_fields
  merge-write_string number with_field P rest f none h = refl
  merge-write_string number with_field P rest f (some text) h = rw (f text h) refl

  pub merge-write_varint :
      (encode : ℤ → ℕ) (number : ℕ) (with_field : Option ℤ → A) (rest : List Field)
      → ((n : ℤ)
          → IsI32 n
          → merge number (varint (encode n)) (with_field none) ≡ some (with_field (some n)))
      → (o : Option ℤ) → OnSome IsI32 o
      → merge_fields merge (write_varint R encode number o ++ rest) (with_field none)
        ≡ merge_fields merge rest (with_field o)
  unfolding merge_fields
  merge-write_varint encode number with_field rest f none h = refl
  merge-write_varint encode number with_field rest f (some n) h = rw (f n h) refl

module _ (R : Runtime) where
  pub write_string-IsTagged :
      (number : ℕ) (o : Option Bytes) (rest : List Field)
      → 0 < number
      → number < 2 ^ 29
      → All IsTagged rest
      → All IsTagged (write_string R number o ++ rest)
  write_string-IsTagged number none rest h k w = w
  write_string-IsTagged number (some text) rest h k w = ((h, k), w)

  pub write_varint-IsTagged :
      (encode : ℤ → ℕ) (number : ℕ) (o : Option ℤ) (rest : List Field)
      → 0 < number
      → number < 2 ^ 29
      → All IsTagged rest
      → All IsTagged (write_varint R encode number o ++ rest)
  write_varint-IsTagged encode number none rest h k w = w
  write_varint-IsTagged encode number (some n) rest h k w = ((h, k), w)

-- Unknown fields are collected one after the other.
abbrev pub add_fields : (R : Runtime) → List Field → R.UnknownFields → R.UnknownFields
add_fields R [] u = u
add_fields R ((number, content) ∷ fs) u = add_fields R fs (R.add_field number content u)

-- Unknown fields that a message kept: none of the numbers is one of the message's, and they are
-- kept as they were written.
pub record IsKept (R : Runtime) (is_known : ℕ → Bool) (u : R.UnknownFields) : Type 0 where
  pub unknown : All (λ f. is_known f.0 ≡ false) (R.unknown_fields u)
  pub tagged : All IsTagged (R.unknown_fields u)
  pub kept : add_fields R (R.unknown_fields u) R.no_fields ≡ u

module _ (R : Runtime) {A : Type 0} (merge : ℕ → Content → A → Option A) where
  merge-add_fields :
      (is_known : ℕ → Bool) (with_fields : R.UnknownFields → A)
      → ((number : ℕ) (content : Content) (u : R.UnknownFields)
          → is_known number ≡ false
          → merge number content (with_fields u)
            ≡ some (with_fields (R.add_field number content u)))
      → (fs : List Field) (u : R.UnknownFields) → All (λ f. is_known f.0 ≡ false) fs
      → merge_fields merge fs (with_fields u) ≡ some (with_fields (add_fields R fs u))
  unfolding merge_fields
  merge-add_fields is_known with_fields f [] u h = refl
  merge-add_fields is_known with_fields f ((number, content) ∷ fs) u (h, hs) =
      rw (f number content u h)
        (merge-add_fields is_known with_fields f fs (R.add_field number content u) hs)

  pub merge-unknown_fields :
      (is_known : ℕ → Bool) (with_fields : R.UnknownFields → A)
      → ((number : ℕ) (content : Content) (u : R.UnknownFields)
          → is_known number ≡ false
          → merge number content (with_fields u)
            ≡ some (with_fields (R.add_field number content u)))
      → (u : R.UnknownFields) → IsKept R is_known u
      → merge_fields merge (R.unknown_fields u) (with_fields R.no_fields) ≡ some (with_fields u)
  merge-unknown_fields is_known with_fields f u h =
      merge-add_fields is_known with_fields f (R.unknown_fields u) R.no_fields h.unknown
      ∙ ap (λ u. some (with_fields u)) h.kept
