-- ===== src/Worker/Shutdown/Drain.antt =====
-- What `drain` of relayq/worker/shutdown.py leaves of the tasks in flight.
use relayq.Prelude.{
  ℕ, ◌≡◌, ◌⊎◌, inl, inr, refl, ◌∙◌, Bool, true, false, ◌||◌, List, [], ◌∷◌, arith, ◌==◌, Bool-cases,
}
use relayq.Effect.Action.{◌>>◌, skip}
use relayq.Effect.{ok}
use relayq.Worker.Shutdown.{EventLoop, GracefulShutdown, cancel_all, cancel_pending, drain}

unfoldable pub member : ℕ → List ℕ → Bool
member t [] = false
member t (x ∷ xs) = x == t || member t xs

-- What asyncio documents: `wait` of some tasks returns, unless it is cancelled, with those of them that are
-- done and those that are not; it cancels none; a task that is done stays so; `cancel` asks one task that is
-- not done to end. `done` and `asked` say which tasks are done, and which have been asked to end.
pub record IsLoop {S : Type 0} (loop : EventLoop S) (done asked : S → ℕ → Bool) : Type 0 where
  pub finished : S → List ℕ → ℕ → List ℕ
  pub unfinished : S → List ℕ → ℕ → List ℕ
  pub wait_returns :
      (t : ℕ) (ts : List ℕ) (timeout : ℕ) (s : S)
      → (loop.wait (t ∷ ts) timeout s).0
        ≡ ok (finished s (t ∷ ts) timeout, unfinished s (t ∷ ts) timeout)
  pub wait_splits :
      (ts : List ℕ) (timeout : ℕ) (s : S) (x : ℕ)
      → member x ts ≡ true
      → (member x (unfinished s ts timeout) ≡ true) ⊎ (done (loop.wait ts timeout s).1 x ≡ true)
  pub wait_unfinished :
      (ts : List ℕ) (timeout : ℕ) (s : S) (x : ℕ)
      → member x (unfinished s ts timeout) ≡ true
      → done (loop.wait ts timeout s).1 x ≡ false
  pub wait_asked :
      (ts : List ℕ) (timeout : ℕ) (s : S) (x : ℕ) → asked (loop.wait ts timeout s).1 x ≡ asked s x
  pub wait_done :
      (ts : List ℕ) (timeout : ℕ) (s : S) (x : ℕ)
      → done s x ≡ true
      → done (loop.wait ts timeout s).1 x ≡ true
  pub cancel_asked : (t : ℕ) (s : S) (x : ℕ) → asked (loop.cancel t s) x ≡ (t == x || asked s x)
  pub cancel_done : (t : ℕ) (s : S) (x : ℕ) → done (loop.cancel t s) x ≡ done s x

module _ {S : Type 0} (loop : EventLoop S) (self : GracefulShutdown) (done asked : S → ℕ → Bool)
    (laws : IsLoop loop done asked) where
  cancel_all-asked :
      (ts : List ℕ) (s : S) (x : ℕ)
      → asked (cancel_all loop self ts s) x ≡ (member x ts || asked s x)
  unfolding cancel_all member
  cancel_all-asked [] s x = refl
  cancel_all-asked (t ∷ ts) s x =
      ground (arith, cancel_all-asked ts (loop.cancel t s) x, laws.cancel_asked t s x)

  cancel_all-done : (ts : List ℕ) (s : S) (x : ℕ) → done (cancel_all loop self ts s) x ≡ done s x
  unfolding cancel_all
  cancel_all-done [] s x = refl
  cancel_all-done (t ∷ ts) s x = cancel_all-done ts (loop.cancel t s) x ∙ laws.cancel_done t s x

  -- The second wait.
  wait-skip :
      (t : ℕ) (ts : List ℕ) (s : S)
      → (loop.wait (t ∷ ts) 5 >> skip) s ≡ (ok tt, (loop.wait (t ∷ ts) 5 s).1)
  wait-skip t ts s = rw (laws.wait_returns t ts 5 s)

  cancel_pending-asked :
      (ts : List ℕ) (s : S) (x : ℕ)
      → ((cancel_pending loop self ts s).0 ≡ ok tt)
        × (asked (cancel_pending loop self ts s).1 x ≡ (member x ts || asked s x))
  unfolding cancel_pending member
  cancel_pending-asked [] s x = (refl, refl)
  cancel_pending-asked (t ∷ ts) s x =
      let cancelled = cancel_all loop self (t ∷ ts) s in
      rw (wait-skip t ts cancelled)
        (refl, laws.wait_asked (t ∷ ts) 5 cancelled x ∙ cancel_all-asked (t ∷ ts) s x)

  cancel_pending-done :
      (ts : List ℕ) (s : S) (x : ℕ)
      → done s x ≡ true
      → done (cancel_pending loop self ts s).1 x ≡ true
  unfolding cancel_pending
  cancel_pending-done [] s x h = h
  cancel_pending-done (t ∷ ts) s x h =
      let cancelled = cancel_all loop self (t ∷ ts) s in
      rw (wait-skip t ts cancelled)
        (laws.wait_done (t ∷ ts) 5 cancelled x (cancel_all-done (t ∷ ts) s x ∙ h))

  drain-cancel_pending :
      (t : ℕ) (ts : List ℕ) (s : S)
      → drain loop self (t ∷ ts) s
        ≡ cancel_pending loop self
            (laws.unfinished s (t ∷ ts) self.drain_timeout)
            (loop.wait (t ∷ ts) self.drain_timeout s).1
  unfolding drain
  drain-cancel_pending t ts s = rw (laws.wait_returns t ts self.drain_timeout s)

  -- On an event loop with the laws of `IsLoop`, `drain` returns, whatever is in flight, nothing included; and
  -- each task in flight has either ended within the drain timeout, and `drain` does not ask it to end, or has
  -- not, and is then asked to.
  pub drain_settles :
      (inflight : List ℕ) (s : S) (x : ℕ)
      → let waited = (loop.wait inflight self.drain_timeout s).1 in
        let (r, after) = drain loop self inflight s in
        (r ≡ ok tt)
        × ((member x inflight ≡ false)
            ⊎ ((done waited x ≡ true) × (done after x ≡ true) × (asked after x ≡ asked s x))
            ⊎ ((done waited x ≡ false) × (asked after x ≡ true)))
  unfolding drain
  drain_settles [] s x = (refl, inl (unfold member in refl))
  drain_settles (t ∷ ts) s x =
      let timeout = self.drain_timeout in
      let waited = (loop.wait (t ∷ ts) timeout s).1 in
      let left = laws.unfinished s (t ∷ ts) timeout in
      let (returned, asks) = cancel_pending-asked left waited x in
      let before = laws.wait_asked (t ∷ ts) timeout s x in
      rw (drain-cancel_pending t ts s) (
        returned,
        (elim (Bool-cases (member x (t ∷ ts))) [
          | inr absent ↦ inl absent
          | inl h ↦ inr (elim (Bool-cases (member x left)) [
            | inl late ↦ inr (laws.wait_unfinished (t ∷ ts) timeout s x late, ground (arith, asks))
            | inr early ↦ elim (laws.wait_splits (t ∷ ts) timeout s x h) [
              | inl late ↦ absurd (ground (arith, late, early))
              | inr ended ↦
                  inl (ended, cancel_pending-done left waited x ended, ground (arith, asks, before))
            ]
          ])
        ]),
      )
