-- ===== src/AudioKey.antt =====
-- core/src/audio_key.rs: the requests for the keys of audio files, and the answers to them.
pub mod Exchange
pub mod Waiting
pub mod Follows
pub mod Trace
pub mod Numbers
pub mod Tests
use spotify_connect_scrobble.Prelude.{
  ℕ, ◌+◌, List, [], ◌∷◌, ◌++◌, length, Option, none, some, Run, returns, ◌>>=◌, ◌>>◌, assert, ◌==◌,
  ltb, if◌then◌else◌,
}
use spotify_connect_scrobble.Prelude.Words.{Bytes, Overflow}
use spotify_connect_scrobble.Prelude.Eq.{nat_eq}
use spotify_connect_scrobble.Prelude.Dict
use spotify_connect_scrobble.Prelude.Dict.{Dict}
use spotify_connect_scrobble.Crates.{ByteOrder, EasyBuf}
use spotify_connect_scrobble.Util.Seq
use spotify_connect_scrobble.Util.Seq.{SeqGenerator}
use spotify_connect_scrobble.Util.SpotifyId.{SpotifyId, FileId, to_raw}

pub record AudioKey : Type 0 where
  pub bytes : Bytes

-- What a `oneshot` receiver of a `Result<AudioKey, AudioKeyError>` gives; `canceled` when its sender
-- was dropped.
pub data Received : Type 0 where
  ok : AudioKey → Received
  err waiting canceled : Received

-- The two ends of a `oneshot` channel are known by a number; what became of the senders is logged,
-- newest first, as are the packets for the session.
pub record AudioKeyManager : Type 0 where
  pub sequence : SeqGenerator
  pub pending : Dict ℕ ℕ
  pub next_channel : ℕ
  pub completed : Dict ℕ Received
  pub packets : List (ℕ × Bytes)

abbrev pub new : AudioKeyManager
new = record {
  sequence = record { value = 0 };
  pending = [];
  next_channel = 0;
  completed = [];
  packets = [];
}

abbrev pub resolve : ℕ → Received → AudioKeyManager → AudioKeyManager
resolve sender result m = record m { completed = (sender, result) ∷ m.completed }

-- A sender goes out of scope.
abbrev pub drop_sender : Option ℕ → AudioKeyManager → AudioKeyManager
drop_sender none m = m
drop_sender (some sender) m = resolve sender canceled m

-- The match on the command. `copy_from_slice` panics unless the lengths agree, and the warning
-- prints the first two bytes.
abbrev pub answer : ℕ → Bytes → Option ℕ → AudioKeyManager → Run AudioKeyManager
answer cmd rest none m = returns m
answer cmd rest (some sender) m =
    if cmd == 0xd
    then (assert (length rest == 16) >> returns (resolve sender (ok (record { bytes = rest })) m))
    else if cmd == 0xe
    then (assert (ltb 1 (length rest)) >> returns (resolve sender err m))
    else returns (resolve sender canceled m)

module _ ⦃order : ByteOrder⦄ where
  unfoldable pub send_key_request : ℕ → SpotifyId → FileId → AudioKeyManager → AudioKeyManager
  send_key_request seq track file m = record m {
    packets =
        (0xc, file.bytes ++ (to_raw track ++ (order.write_u32 seq ++ order.write_u16 0x0000)))
        ∷ m.packets;
  }

  -- `insert` drops the sender that waits under the same number. The future is known by its channel.
  unfoldable pub request :
      Overflow → SpotifyId → FileId → AudioKeyManager → Run (ℕ × AudioKeyManager)
  request mode track file m = do
    (seq, sequence) ← Seq.get mode 32 m.sequence
    let inserted : AudioKeyManager = record m {
      sequence = sequence;
      pending = Dict.insert seq m.next_channel m.pending;
      next_channel = m.next_channel + 1;
    }
    returns (
      m.next_channel,
      send_key_request seq track file (drop_sender (Dict.get seq m.pending) inserted),
    )

  unfoldable pub dispatch : ⦃buffer : EasyBuf⦄ → ℕ → Bytes → AudioKeyManager → Run AudioKeyManager
  dispatch ⦃buffer⦄ cmd bytes m = do
    (front, rest) ← buffer.drain_to 4 bytes
    seq ← order.read_u32 front
    answer cmd rest (Dict.get seq m.pending) (record m { pending = Dict.remove seq m.pending })

-- `Poll<AudioKey, AudioKeyError>`
pub data Answer : Type 0 where
  ready : AudioKey → Answer
  not_ready audio_key_error : Answer

abbrev pub receive : Option Received → Received
receive none = waiting
receive (some result) = result

abbrev pub poll_received : Received → Answer
poll_received (ok value) = ready value
poll_received err = audio_key_error
poll_received waiting = not_ready
poll_received canceled = audio_key_error

-- `AudioKeyFuture::poll`
unfoldable pub poll : ℕ → AudioKeyManager → Answer
poll channel m = poll_received (receive (Dict.get channel m.completed))
