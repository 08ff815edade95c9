-- ===== src/Scrobbler/World.antt =====
-- A world for src/scrobbler.rs in which every lookup is answered at once, to evaluate the model in.
use spotify_connect_scrobble.Prelude.{◌≡◌, refl, ap, ◌∙◌, [], ◌∷◌, Bool, true, Run, returns, panics}
use spotify_connect_scrobble.Prelude.Words.{Bytes}
use spotify_connect_scrobble.Util.SpotifyId.{SpotifyId, codes}
use spotify_connect_scrobble.Util.Int128.{from_parts}
use spotify_connect_scrobble.Scrobbler.Services.{
  Env, IsLawful, Poll, ready, not_ready, failed, aborts, Track, Call, authenticate, now_playing,
  scrobble,
}

-- Futures that know their answer; one that has given its answer is spent.
pub data Known (A : Type 0) : Type 0 where
  done : A → Known A
  pending fails spent : Known A

abbrev poll_known : (A : Type 0) → Known A → Poll A × Known A
poll_known A (done a) = (ready a, spent)
poll_known A pending = (not_ready, pending)
poll_known A fails = (failed, spent)
poll_known A spent = (aborts, spent)

abbrev run_known : {B : Type 0} → Run (Known B) → Known B
run_known (returns f) = f
run_known panics = spent

abbrev and_then_known : (A B : Type 0) → Known A → (A → Run (Known B)) → Known B
and_then_known A B (done a) k = run_known (k a)
and_then_known A B pending k = pending
and_then_known A B fails k = fails
and_then_known A B spent k = spent

abbrev pub artist_id : SpotifyId
artist_id = record { number = from_parts 3 4 }

abbrev pub song : Track
song = record {
  name = codes "song";
  artists = artist_id ∷ [];
  album = record { number = from_parts 5 6 };
}

-- Whether Last.fm takes scrobbles.
abbrev takes : {S : Type 0} → Bool → Call S → Bool
takes friendly (authenticate user password) = true
takes friendly (now_playing meta) = true
takes friendly (scrobble meta) = friendly

abbrev pub world : Bool → Track → Env
world friendly track = record {
  Future = Known;
  poll = poll_known;
  ok = λ A a. done a;
  err = λ A. fails;
  empty = λ A. pending;
  and_then = and_then_known;
  Scrobble = Bytes × Bytes × Bytes;
  new_scrobble = λ artist name album. (artist, name, album);
  accepts = λ past call. takes friendly call;
  get_track = λ id. done track;
  get_artist_name = λ id. done (codes "artist");
  get_album_name = λ id. done (codes "album");
}

and_then_ready :
    (A B : Type 0) (f : Known A) (k : A → Run (Known B)) (a : A) (g : Known B)
    → (poll_known A f).0 ≡ ready a
    → k a ≡ returns g
    → (poll_known B (and_then_known A B f k)).0 ≡ (poll_known B g).0
and_then_ready A B (done b) k a g e h =
    ap (λ r. (poll_known B (run_known r)).0) (ap (λ x. k x) (answer b a e) ∙ h)
  where
    answer : (b a : A) → ◌≡◌ {A = Poll A} (ready b) (ready a) → b ≡ a
    answer b a e = cc
and_then_ready A B pending k a g e h = cc
and_then_ready A B fails k a g e h = cc
and_then_ready A B spent k a g e h = cc

and_then_aborts :
    (A B : Type 0) (f : Known A) (k : A → Run (Known B)) (a : A)
    → (poll_known A f).0 ≡ ready a
    → k a ≡ panics
    → (poll_known B (and_then_known A B f k)).0 ≡ aborts
and_then_aborts A B (done b) k a e h =
    ap (λ r. (poll_known B (run_known r)).0) (ap (λ x. k x) (answer b a e) ∙ h)
  where
    answer : (b a : A) → ◌≡◌ {A = Poll A} (ready b) (ready a) → b ≡ a
    answer b a e = cc
and_then_aborts A B pending k a e h = cc
and_then_aborts A B fails k a e h = cc
and_then_aborts A B spent k a e h = cc

and_then_failed :
    (A B : Type 0) (f : Known A) (k : A → Run (Known B))
    → (poll_known A f).0 ≡ failed
    → (poll_known B (and_then_known A B f k)).0 ≡ failed
and_then_failed A B (done b) k e = cc
and_then_failed A B pending k e = cc
and_then_failed A B fails k e = refl
and_then_failed A B spent k e = cc

pub lawful : (friendly : Bool) (track : Track) → IsLawful (world friendly track)
lawful friendly track = record {
  poll_ok = λ A a. refl;
  poll_err = λ A. refl;
  poll_empty = λ A. refl;
  and_then_ready = and_then_ready;
  and_then_aborts = and_then_aborts;
  and_then_failed = and_then_failed;
}
