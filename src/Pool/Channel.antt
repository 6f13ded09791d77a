-- ===== src/Pool/Channel.antt =====
-- Buffered channels of pkg/pool/pool.go, and `excludeIDFromChannel`.
use mathlib.Core.List.{append-nil, append_assoc}
use integresql.Prelude.{
  ℕ, ◌+◌, ◌≤◌, ◌<◌, ◌≡◌, List, [], ◌∷◌, ◌++◌, arith, ltb, ◌==◌, length, if◌then◌else◌, ◌∙◌, lt→ltb,
  Bool-cases, inl, inr,
}
use integresql.Prelude.Lists.{length-append}
use integresql.Prelude.Counting.{without, length-without-le}
use integresql.Errors.{Outcome, done, blocked, panicked, ◌>>=◌}
use integresql.Pool.{HashPool, WorkerTask}

-- `ch <- x` on a channel with the capacity `room`.
unfoldable pub send {ℓ} : {A : Type ℓ} → ℕ → A → List A → Outcome (List A)
send room x ch = if ltb (length ch) room then done (ch ++ x ∷ []) else blocked

pub send_done {ℓ} :
    {A : Type ℓ} (room : ℕ) (x : A) (ch : List A)
    → length ch < room
    → send room x ch ≡ done (ch ++ x ∷ [])
unfolding send
send_done room x ch h = rw (lt→ltb (length ch) room h)

-- `pool.tasksChan <- task`; a send on a closed channel panics.
unfoldable pub send_task : HashPool → WorkerTask → Outcome HashPool
unfolding send
send_task p t = if p.tasks_closed then panicked else do
  tasks ← send (p.max_pool_size + 1) t p.tasks_chan
  done (record p { tasks_chan = tasks })

-- The first loop: what the channel holds goes to `filtered`, all but the excluded id.
unfoldable pub drain : ℕ → ℕ → List ℕ → List ℕ → Outcome (List ℕ)
drain room exclude [] filtered = done filtered
drain room exclude (id ∷ ch) filtered =
    (if id == exclude then done filtered else send room id filtered) >>= λ filtered'.
    drain room exclude ch filtered'

-- The second loop: `filtered` flows back.
unfoldable pub refill : ℕ → List ℕ → List ℕ → Outcome (List ℕ)
refill room [] ch = done ch
refill room (id ∷ filtered) ch = send room id ch >>= λ ch'. refill room filtered ch'

unfoldable pub exclude_id_from_channel : ℕ → ℕ → List ℕ → Outcome (List ℕ)
unfolding send drain refill
exclude_id_from_channel room exclude ch =
    drain room exclude ch [] >>= λ filtered. refill room filtered []

drain-without :
    (room exclude : ℕ) (ch filtered : List ℕ)
    → length filtered + length ch ≤ room
    → drain room exclude ch filtered ≡ done (filtered ++ without exclude ch)
unfolding drain
drain-without room exclude [] filtered h = rw append-nil
drain-without room exclude (id ∷ ch) filtered h = elim (Bool-cases (id == exclude)) [
  | inl out ↦ rw out (drain-without room exclude ch filtered (omega arith))
  | inr kept ↦
      rw (kept, send_done room id filtered (omega arith))
        (drain-without room exclude ch (filtered ++ id ∷ [])
            (omega (arith, length-append filtered (id ∷ [])))
          ∙ rw append_assoc)
]

refill-append :
    (room : ℕ) (filtered ch : List ℕ)
    → length ch + length filtered ≤ room
    → refill room filtered ch ≡ done (ch ++ filtered)
unfolding refill
refill-append room [] ch h = rw append-nil
refill-append room (id ∷ filtered) ch h = rw (send_done room id ch (omega arith)) (
    refill-append room filtered (ch ++ id ∷ []) (omega (arith, length-append ch (id ∷ [])))
    ∙ rw append_assoc)

-- On a channel within its capacity the two loops neither block nor reorder: what remains is the
-- channel without the excluded id, wherever and however often it stood there.
pub exclude_id_from_channel-without :
    (room exclude : ℕ) (ch : List ℕ)
    → length ch ≤ room
    → exclude_id_from_channel room exclude ch ≡ done (without exclude ch)
unfolding exclude_id_from_channel
exclude_id_from_channel-without room exclude ch h =
    rw (drain-without room exclude ch [] (omega arith))
      (refill-append room (without exclude ch) [] (omega (arith, length-without-le exclude ch)))
