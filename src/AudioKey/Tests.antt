-- ===== src/AudioKey/Tests.antt =====
-- A run of the theorem on core/src/audio_key.rs at concrete inputs.
use spotify_connect_scrobble.Prelude.{
  ◌≡◌, ◌≢◌, ◌⊎◌, ℕ, List, refl, some, [], ◌∷◌, ◌++◌, replicate, returns, if◌then◌else◌, ◌==◌, arith,
}
use spotify_connect_scrobble.Prelude.Words.{Bytes, be_bytes, checked}
use spotify_connect_scrobble.Prelude.Eq.{nat_eq}
use spotify_connect_scrobble.Prelude.Dict
use spotify_connect_scrobble.Crates.Reference.{byte_order, easy_buf}
use spotify_connect_scrobble.Util.Int128.{from_parts}
use spotify_connect_scrobble.Util.SpotifyId.{SpotifyId, FileId}
use spotify_connect_scrobble.Util.Seq
use spotify_connect_scrobble.AudioKey.{
  dispatch, send_key_request, ok, AudioKeyManager, request, poll, ready, not_ready, audio_key_error,
}
use spotify_connect_scrobble.AudioKey.Exchange.{key_request, polls_after}
use spotify_connect_scrobble.AudioKey.Trace.{
  Event, asks, packet, step, run, run-keeps, run-accounts,
}
use spotify_connect_scrobble.AudioKey.Numbers.{run-request-answers}

abbrev track : SpotifyId
track = record { number = from_parts 3 4 }

abbrev file : FileId
file = record { bytes = replicate 20 7 }

abbrev key : Bytes
key = replicate 16 200

-- Two requests, then the key of the second one.
abbrev asked_twice : List Event
asked_twice = asks track file ∷ asks track file ∷ []

abbrev second_key : List Event
second_key = packet 0xd (be_bytes 4 1 ++ key) ∷ []

-- The key again, and an error: both come too late for the second one.
abbrev too_late : List Event
too_late = packet 0xe (be_bytes 4 1 ++ 1 ∷ 2 ∷ []) ∷ packet 0xd (be_bytes 4 0 ++ key) ∷ []

abbrev before : List Event
before = asked_twice ++ second_key

abbrev keyed : AudioKeyManager
keyed = record {
  sequence = record { value = 2 };
  pending = (0, 0) ∷ [];
  next_channel = 2;
  completed = (1, ok (record { bytes = key })) ∷ [];
  packets = (0xc, key_request 1 track file) ∷ (0xc, key_request 0 track file) ∷ [];
}

run-request-answers_example :
    (m1 : AudioKeyManager) × (request checked track file keyed ≡ returns (2, m1))
    × (m1.packets ≡ (0xc, key_request 2 track file) ∷ keyed.packets)
    × (poll 2 m1 ≡ not_ready)
    × (polls_after 0xd (be_bytes 4 2 ++ key) m1
        ≡ returns (λ c. if 2 == c then ready (record { bytes = key }) else poll c m1))
    × (polls_after 0xe (be_bytes 4 2 ++ 1 ∷ 2 ∷ []) m1
        ≡ returns (λ c. if 2 == c then audio_key_error else poll c m1))
unfolding run step request dispatch send_key_request Dict.get Dict.insert Dict.remove Seq.get
run-request-answers_example =
    run-request-answers checked before keyed track file key (1 ∷ 2 ∷ []) (omega arith) refl refl
      (omega arith)

abbrev all_keyed : AudioKeyManager
all_keyed = record keyed {
  pending = [];
  completed = (0, ok (record { bytes = key })) ∷ keyed.completed;
}

run-keeps_example : poll 1 all_keyed ≡ poll 1 keyed
unfolding run step request dispatch send_key_request Dict.get Dict.insert Dict.remove Seq.get poll
run-keeps_example = run-keeps checked before too_late keyed all_keyed 1 refl refl (λ e. cc e)

run-accounts_example :
    (poll 0 keyed ≢ not_ready)
    ⊎ ((seq : ℕ) × (Dict.get seq keyed.pending ≡ some 0)
        × (poll 0 keyed ≡ not_ready)
        × ((j : ℕ) → Dict.get j keyed.pending ≡ some 0 → j ≡ seq))
unfolding run step request dispatch send_key_request Dict.get Dict.insert Dict.remove Seq.get
run-accounts_example = run-accounts checked before keyed 0 refl (omega arith)
