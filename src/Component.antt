-- ===== src/Component.antt =====
-- core/src/component.rs: a value that is made when it is first asked for.
use spotify_connect_scrobble.Prelude.{
  ◌≡◌, refl, Option, none, some, Bool, true, false, Run, returns, ◌>>=◌, unwrap,
}

-- The flag is behind the mutex, the cell is read without it.
pub record Lazy {ℓ} (T : Type ℓ) : Type ℓ where
  pub is_made : Bool
  pub cell : Option T

module _ {ℓ} {T : Type ℓ} where
  abbrev pub new : Lazy T
  new = record { is_made = false; cell = none }

  abbrev pub fill : T → Bool → Lazy T → Lazy T
  fill made true l = l
  fill made false l = record { is_made = true; cell = some made }

  -- `get`, with what the closure would make.
  unfoldable pub get : T → Lazy T → Run (T × Lazy T)
  get made l = do
    let filled = fill made l.is_made l
    value ← unwrap filled.cell
    returns (value, filled)

  -- The value behind the reference that `get` gave has become another one.
  abbrev pub store : T → Lazy T → Lazy T
  store value l = record l { cell = some value }

  abbrev pub is_some : Option T → Bool
  is_some none = false
  is_some (some value) = true

  -- The cell holds a value once the flag is set, and only then.
  abbrev pub IsLazy : Lazy T → Type 0
  IsLazy l = l.is_made ≡ is_some l.cell

  -- What `get` gives.
  abbrev pub value_or : T → Option T → T
  value_or made none = made
  value_or made (some value) = value

  abbrev pub current : T → Lazy T → T
  current made l = value_or made l.cell

  pub get_lem :
      (made : T) (l : Lazy T)
      → IsLazy l
      → get made l
        ≡ returns (current made l, record { is_made = true; cell = some (current made l) })
  unfolding get
  get_lem made l h = filled l.is_made l.cell h
    where
      filled :
          (b : Bool) (o : Option T)
          → b ≡ is_some o
          → get made (record { is_made = b; cell = o })
            ≡ returns (value_or made o, record { is_made = true; cell = some (value_or made o) })
      filled true none h = absurd (cc h)
      filled true (some value) h = refl
      filled false none h = refl
      filled false (some value) h = absurd (cc h)
