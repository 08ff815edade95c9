-- ===== src/Mercury/Sender.antt =====
-- core/src/mercury/sender.rs: a queue of items that are sent to one URI, with `MercuryFuture` and
-- `sender` of core/src/mercury/mod.rs.
use spotify_connect_scrobble.Prelude.{
  ◌≡◌, ◌⊎◌, inl, inr, refl, List, [], ◌∷◌, ◌++◌, All, Run, returns, ◌>>=◌, ap,
}
use spotify_connect_scrobble.Prelude.Words.{Bytes, Overflow}
use spotify_connect_scrobble.Crates.{ByteOrder, EasyBuf}
use spotify_connect_scrobble.Mercury.{MercuryManager, ChannelId, request, send_request}
use spotify_connect_scrobble.Mercury.Types.{MercuryResponse, Protobuf}

-- What the receiver of a callback gives when it is polled.
pub data Received : Type 0 where
  ok : MercuryResponse → Received
  err waiting canceled : Received

-- `Poll<A, MercuryError>`
pub data Answer (A : Type 0) : Type 0 where
  ready : A → Answer A
  not_ready mercury_error : Answer A

-- `MercuryFuture::poll`
abbrev pub poll : Received → Answer MercuryResponse
poll (ok value) = ready value
poll err = mercury_error
poll waiting = not_ready
poll canceled = mercury_error

-- The manager is a handle to the shared one, which the operations pass along.
pub record MercurySender : Type 0 where
  pub uri : Bytes
  pub pending : List ChannelId

-- `MercuryManager::sender`, by `MercurySender::new`
abbrev pub new : Bytes → MercurySender
new uri = record { uri = uri; pending = [] }

abbrev pub clone : MercurySender → MercurySender
clone s = record { uri = s.uri; pending = [] }

-- `MercuryManager::send`, and the queue behind it.
unfoldable pub start_send :
    ⦃order : ByteOrder⦄
    → ⦃buffer : EasyBuf⦄ → Protobuf
    → Overflow
    → Bytes
    → MercurySender
    → MercuryManager
    → Run (MercurySender × MercuryManager)
start_send proto mode item s m = do
  (task, m') ← request proto mode (send_request s.uri item) m
  returns (record s { pending = s.pending ++ task ∷ [] }, m')

-- `try_ready!` of the task in front: a task that is ready is popped, with what `rest` is then.
abbrev pub try_front :
    Answer MercuryResponse
    → ChannelId
    → List ChannelId
    → Answer (Unit {0}) × List ChannelId
    → Answer (Unit {0}) × List ChannelId
try_front (ready value) task pending rest = rest
try_front not_ready task pending rest = (not_ready, task ∷ pending)
try_front mercury_error task pending rest = (mercury_error, task ∷ pending)

-- The loop of `poll_complete`.
unfoldable pub flush : (ChannelId → Received) → List ChannelId → Answer (Unit {0}) × List ChannelId
flush receive [] = (ready tt, [])
flush receive (task ∷ pending) =
    try_front (poll (receive task)) task pending (flush receive pending)

unfoldable pub poll_complete :
    (ChannelId → Received) → MercurySender → Answer (Unit {0}) × MercurySender
unfolding flush
poll_complete receive s =
    let (answer, pending) = flush receive s.pending in (answer, record s { pending = pending })

-- A response has come for a task.
abbrev pub IsAnswered : (ChannelId → Received) → ChannelId → Type 0
IsAnswered receive task = (value : MercuryResponse) × (receive task ≡ ok value)

-- Either nothing is left, or the answer is that of the task in front, which has no response.
abbrev pub Stops : (ChannelId → Received) → Answer (Unit {0}) → List ChannelId → Type 0
Stops receive answer [] = answer ≡ ready tt
Stops receive answer (task ∷ left) =
    ((answer ≡ not_ready) × (receive task ≡ waiting))
    ⊎ ((answer ≡ mercury_error) × ((receive task ≡ err) ⊎ (receive task ≡ canceled)))

Flushed : (ChannelId → Received) → List ChannelId → Answer (Unit {0}) × List ChannelId → Type 0
Flushed receive pending (answer, left) =
    (done : List ChannelId) × (pending ≡ done ++ left)
    × All (IsAnswered receive) done
    × Stops receive answer left

flush-Flushed :
    (receive : ChannelId → Received) (pending : List ChannelId)
    → Flushed receive pending (flush receive pending)
unfolding flush Flushed
flush-Flushed receive [] = ([], refl, tt, refl)
flush-Flushed receive (task ∷ pending) =
    front (receive task) refl (flush receive pending) (flush-Flushed receive pending)
  where
    front :
        (r : Received)
        → receive task ≡ r
        → (rest : Answer (Unit {0}) × List ChannelId) → Flushed receive pending rest
        → Flushed receive (task ∷ pending) (try_front (poll r) task pending rest)
    front (ok value) e rest (done, split, answered, stops) =
        (task ∷ done, ap (λ xs. task ∷ xs) split, ((value, e), answered), stops)
    front err e rest h = ([], refl, tt, inr (refl, inl e))
    front waiting e rest h = ([], refl, tt, inl (refl, e))
    front canceled e rest h = ([], refl, tt, inr (refl, inr e))

-- `poll_complete` pops the tasks from the front that have a response, in the order in which they
-- were sent, and stops at the first one without: the answer is ready if no task is left, not ready
-- if that task waits, and an error if its request failed or was dropped, and that task stays.
pub poll_complete_lem :
    (receive : ChannelId → Received) (s : MercurySender)
    → let (answer, s') = poll_complete receive s in
      (done : List ChannelId) × (s.pending ≡ done ++ s'.pending)
      × All (IsAnswered receive) done
      × Stops receive answer s'.pending
unfolding poll_complete Flushed
poll_complete_lem receive s = flush-Flushed receive s.pending
