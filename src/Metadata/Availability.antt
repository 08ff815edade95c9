-- ===== src/Metadata/Availability.antt =====
-- metadata/src/lib.rs: in which countries a track may be played.
use spotify_connect_scrobble.Prelude.{
  ◌≡◌, refl, ap, List, [], ◌∷◌, ◌++◌, map, append_assoc, append-nil, Option, none, some, Bool, true,
  false, not, ◌&&◌, ◌||◌, returns, if◌then◌else◌, All, All-append, arith, Bool-cases, inl, inr,
}
use spotify_connect_scrobble.Prelude.Words.{Bytes}
use spotify_connect_scrobble.Metadata.Codes.{
  Code, IsCode, text, member, text-append, member-append, countrylist_contains-text,
}
use spotify_connect_scrobble.Metadata.Countries.{
  Restriction, push_str, Collected, has_catalogue, collect, decide_on, parse_restrictions,
}

-- The terms of a restriction: the catalogues that it is about, and its lists of countries.
pub record Terms : Type 0 where
  pub catalogues : List Bytes
  pub forbidden : Option (List Code)
  pub allowed : Option (List Code)

abbrev pub written_list : Option (List Code) → Option Bytes
written_list none = none
written_list (some cs) = some (text cs)

abbrev pub written : Terms → Restriction
written t = record {
  catalogue_str = t.catalogues;
  countries_forbidden = written_list t.forbidden;
  countries_allowed = written_list t.allowed;
}

abbrev pub AreCodes : Option (List Code) → Type 0
AreCodes none = Unit {0}
AreCodes (some cs) = All IsCode cs

abbrev pub IsTerms : Terms → Type 0
IsTerms t = AreCodes t.forbidden × AreCodes t.allowed

abbrev pub lists : Bytes → Option (List Code) → Bool
lists country none = false
lists country (some cs) = member country cs

abbrev pub is_some : Option (List Code) → Bool
is_some none = false
is_some (some cs) = true

-- Some restriction of the catalogue has a list of a kind, forbidden or allowed.
abbrev pub given : (Terms → Option (List Code)) → Bytes → List Terms → Bool
given kind catalogue [] = false
given kind catalogue (t ∷ ts) =
    has_catalogue catalogue t.catalogues && is_some (kind t) || given kind catalogue ts

-- Some restriction of the catalogue names the country in its list of a kind.
abbrev pub names : (Terms → Option (List Code)) → Bytes → Bytes → List Terms → Bool
names kind catalogue country [] = false
names kind catalogue country (t ∷ ts) =
    has_catalogue catalogue t.catalogues && lists country (kind t)
    || names kind catalogue country ts

abbrev forbidden_of : Terms → Option (List Code)
forbidden_of t = t.forbidden

abbrev allowed_of : Terms → Option (List Code)
allowed_of t = t.allowed

-- What the restrictions mean: some list is given, no list forbids the country, and one of the lists
-- of allowed countries, if there are any, names it.
abbrev pub is_available : List Terms → Bytes → Bytes → Bool
is_available ts country catalogue =
    (given forbidden_of catalogue ts || given allowed_of catalogue ts)
    && (not (names forbidden_of catalogue country ts)
        && (not (given allowed_of catalogue ts) || names allowed_of catalogue country ts))

-- The codes that the loop collects.
abbrev codes_of : Option (List Code) → List Code
codes_of none = []
codes_of (some cs) = cs

abbrev all_codes : (Terms → Option (List Code)) → Bytes → List Terms → List Code
all_codes kind catalogue [] = []
all_codes kind catalogue (t ∷ ts) =
    if has_catalogue catalogue t.catalogues
    then codes_of (kind t) ++ all_codes kind catalogue ts
    else all_codes kind catalogue ts

member-codes_of :
    (country : Bytes) (o : Option (List Code)) → member country (codes_of o) ≡ lists country o
member-codes_of country none = refl
member-codes_of country (some cs) = refl

lists_some :
    (country : Bytes) (o : Option (List Code)) → lists country o ≡ (is_some o && lists country o)
lists_some country none = refl
lists_some country (some cs) = refl

module _ (kind : Terms → Option (List Code)) (catalogue : Bytes) where
  member-all_codes :
      (country : Bytes) (ts : List Terms)
      → member country (all_codes kind catalogue ts) ≡ names kind catalogue country ts
  member-all_codes country [] = refl
  member-all_codes country (t ∷ ts) = ground (
    arith,
    member-append country (codes_of (kind t)) (all_codes kind catalogue ts),
    member-codes_of country (kind t),
    member-all_codes country ts,
  )

  all_codes-AreCodes :
      (ts : List Terms) → All (λ t. AreCodes (kind t)) ts → All IsCode (all_codes kind catalogue ts)
  all_codes-AreCodes [] h = tt
  all_codes-AreCodes (t ∷ ts) h = elim (Bool-cases (has_catalogue catalogue t.catalogues)) [
    | inl e ↦ rw e (
        All-append IsCode (codes_of (kind t)) (all_codes kind catalogue ts) (of_kind (kind t) h.0)
          (all_codes-AreCodes ts h.1))
    | inr e ↦ rw e (all_codes-AreCodes ts h.1)
  ]
    where
      of_kind : (o : Option (List Code)) → AreCodes o → All IsCode (codes_of o)
      of_kind none h = tt
      of_kind (some cs) h = h

  -- Without a list there are no names.
  names-given :
      (country : Bytes) (ts : List Terms)
      → names kind catalogue country ts
        ≡ (given kind catalogue ts && names kind catalogue country ts)
  names-given country [] = refl
  names-given country (t ∷ ts) = ground (arith, names-given country ts, lists_some country (kind t))

abbrev collected : List Code → Bool → Collected
collected cs is_given = record { list = text cs; is_given = is_given }

push-collected :
    (o : Option (List Code)) (cs : List Code) (b : Bool)
    → push_str (written_list o) (collected cs b) ≡ collected (cs ++ codes_of o) (b || is_some o)
push-collected none cs b = rw (append-nil cs) (ground arith)
push-collected (some ds) cs b = rw (text-append cs ds) (ground arith)

or_assoc : (a b c : Bool) → (a || b || c) ≡ (a || (b || c))
or_assoc a b c = ground arith

-- The loop collects the codes of the restrictions of the catalogue.
collect-written :
    (catalogue : Bytes) (ts : List Terms) (fs gs : List Code) (f a : Bool)
    → collect catalogue (map written ts) (collected fs f) (collected gs a) ≡ (
      collected (fs ++ all_codes forbidden_of catalogue ts) (f || given forbidden_of catalogue ts),
      collected (gs ++ all_codes allowed_of catalogue ts) (a || given allowed_of catalogue ts),
    )
unfolding collect
collect-written catalogue [] fs gs f a = rw (append-nil fs, append-nil gs) (ground arith)
collect-written catalogue (t ∷ ts) fs gs f a =
    elim (Bool-cases (has_catalogue catalogue t.catalogues)) [
      | inl e ↦
          rw
            (
              e,
              push-collected t.forbidden fs f,
              push-collected t.allowed gs a,
              collect-written catalogue ts (fs ++ codes_of t.forbidden) (gs ++ codes_of t.allowed)
                  (f || is_some t.forbidden) (a || is_some t.allowed),
            )
            (rw
              (
                append_assoc fs (codes_of t.forbidden) (all_codes forbidden_of catalogue ts),
                append_assoc gs (codes_of t.allowed) (all_codes allowed_of catalogue ts),
                or_assoc f (is_some t.forbidden) (given forbidden_of catalogue ts),
              )
              (ap
                (λ b. (
                  record {
                    list =
                        text (fs ++ (codes_of t.forbidden ++ all_codes forbidden_of catalogue ts));
                    is_given = f || (is_some t.forbidden || given forbidden_of catalogue ts);
                  },
                  collected (gs ++ (codes_of t.allowed ++ all_codes allowed_of catalogue ts)) b,
                ))
                (or_assoc a (is_some t.allowed) (given allowed_of catalogue ts))))
      | inr e ↦ rw (e, collect-written catalogue ts fs gs f a) refl
    ]

All-forbidden : (ts : List Terms) → All IsTerms ts → All (λ t. AreCodes (forbidden_of t)) ts
All-forbidden [] h = tt
All-forbidden (t ∷ ts) h = (h.0.0, All-forbidden ts h.1)

All-allowed : (ts : List Terms) → All IsTerms ts → All (λ t. AreCodes (allowed_of t)) ts
All-allowed [] h = tt
All-allowed (t ∷ ts) h = (h.0.1, All-allowed ts h.1)

-- For restrictions whose lists are codes of two letters, put one after the other, a track is
-- available in a country, in a catalogue, exactly if the restrictions of this catalogue, taken
-- together, give some list, forbid the country nowhere, and allow it somewhere if any of them has a
-- list of allowed countries.
pub parse_restrictions_lem :
    (ts : List Terms) (country catalogue : Bytes)
    → All IsTerms ts
    → parse_restrictions (map written ts) country catalogue
      ≡ returns (is_available ts country catalogue)
unfolding parse_restrictions decide_on
parse_restrictions_lem ts country catalogue h =
    let fs : List Code = all_codes forbidden_of catalogue ts in
    let gs : List Code = all_codes allowed_of catalogue ts in
    rw
      (
        collect-written catalogue ts [] [] false false,
        countrylist_contains-text country fs
            (all_codes-AreCodes forbidden_of catalogue ts (All-forbidden ts h)),
        countrylist_contains-text country gs
            (all_codes-AreCodes allowed_of catalogue ts (All-allowed ts h)),
        member-all_codes forbidden_of catalogue country ts,
        member-all_codes allowed_of catalogue country ts,
      )
      (ground (arith, names-given forbidden_of catalogue country ts))
