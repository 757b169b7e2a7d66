-- ===== src/Executor/Polling.antt =====
-- The two polling loops of the executor end by their deadline: more fuel changes nothing.
use option_chain_based_strat.Common.{
  ℕ, zero, suc, ◌+◌, ◌≤◌, ◌<◌, ◌≡◌, refl, inl, inr, false, ◌&&◌, ◌||◌, arith, ltb, Bool-cases,
  Option-cases,
}
use option_chain_based_strat.Executor.Orders.{OrderFill, unknown, Broker, is_complete, is_dead}
use option_chain_based_strat.Executor.Leg.{
  Settings, await_from, await_fill, settle_from, cancel_and_settle, fill,
}

-- The clock of the event loop: sleeping takes as long as asked, and no call turns it back.
pub record IsClock (br : Broker) : Type 0 where
  pub sleeps : (d : ℕ) (w : br.World) → br.now w + d ≤ br.now (br.sleep d w)
  pub asks : (i : br.OrderId) (w : br.World) → br.now w ≤ br.now (br.get_order_status i w).1

module _ (br : Broker) (clock : IsClock br) (poll : ℕ) (spaced : 0 < poll) where
  open br use {World, OrderId, now, sleep, get_order_status}

  round :
      (i : OrderId) (w : World) (n deadline : ℕ)
      → deadline ≤ now w + suc n
      → deadline ≤ now (sleep poll (get_order_status i w).1) + n
  round i w n deadline h = omega (arith, clock.asks i w, clock.sleeps poll (get_order_status i w).1)

  -- If the fuel covers the milliseconds up to the deadline, the loop of _await_fill gives the same
  -- on any more.
  pub await_from-fuel :
      (n m deadline : ℕ) (i : OrderId) (last : OrderFill) (w : World)
      → n ≤ m
      → deadline ≤ now w + n
      → await_from br poll m deadline i last w ≡ await_from br poll n deadline i last w
  unfolding await_from
  await_from-fuel zero zero deadline i last w le h = refl
  await_from-fuel zero (suc m) deadline i last w le h =
      let over : ltb (now w) deadline ≡ false = ground arith in rw (over, await_from)
  await_from-fuel (suc n) zero deadline i last w le h = absurd (omega arith)
  await_from-fuel (suc n) (suc m) deadline i last w le h =
      elim (Bool-cases (ltb (now w) deadline)) [
        | inr over ↦ rw (over, await_from)
        | inl on ↦ elim (Option-cases (get_order_status i w).0) [
          | inl failed ↦
              rw (on, failed, await_from)
                (await_from-fuel n m deadline i last _ (omega arith) (round i w n deadline h))
          | inr (f, seen) ↦ elim (Bool-cases (is_complete f.status && ltb 0 f.avg_price)) [
            | inl done ↦ rw (on, seen, done, await_from)
            | inr open_ ↦ elim (Bool-cases (is_dead f.status)) [
              | inl dead ↦ rw (on, seen, open_, dead, await_from)
              | inr live ↦
                  rw (on, seen, open_, live, await_from)
                    (await_from-fuel n m deadline i f _ (omega arith) (round i w n deadline h))
            ]
          ]
        ]
      ]

  -- So for the loop of _cancel_and_settle.
  pub settle_from-fuel :
      (n m deadline : ℕ) (i : OrderId) (last : OrderFill) (w : World)
      → n ≤ m
      → deadline ≤ now w + n
      → settle_from br poll m deadline i last w ≡ settle_from br poll n deadline i last w
  unfolding settle_from
  settle_from-fuel zero zero deadline i last w le h = refl
  settle_from-fuel zero (suc m) deadline i last w le h =
      let over : ltb (now w) deadline ≡ false = ground arith in rw (over, settle_from)
  settle_from-fuel (suc n) zero deadline i last w le h = absurd (omega arith)
  settle_from-fuel (suc n) (suc m) deadline i last w le h =
      elim (Bool-cases (ltb (now w) deadline)) [
        | inr over ↦ rw (over, settle_from)
        | inl on ↦ elim (Option-cases (get_order_status i w).0) [
          | inl failed ↦
              rw (on, failed, settle_from)
                (settle_from-fuel n m deadline i last _ (omega arith) (round i w n deadline h))
          | inr (f, seen) ↦ elim (Bool-cases (is_dead f.status || is_complete f.status)) [
            | inl done ↦ rw (on, seen, done, settle_from)
            | inr live ↦
                rw (on, seen, live, settle_from)
                  (settle_from-fuel n m deadline i f _ (omega arith) (round i w n deadline h))
          ]
        ]
      ]

-- On a clock that advances, and with a poll interval of at least a millisecond, _await_fill returns
-- by its deadline: the fuel it has gives the same as any more.
pub await_fill-fuel :
    (br : Broker) (clock : IsClock br) (s : Settings) (i : br.OrderId) (w : br.World) (m : ℕ)
    → 0 < s.poll
    → s.timeout < m
    → await_from br s.poll m (br.now w + s.timeout) i (fill 0 0 unknown) w ≡ await_fill br s i w
unfolding await_fill
await_fill-fuel br clock s i w m spaced enough =
    await_from-fuel br clock s.poll spaced (suc s.timeout) m _ i _ w enough (omega arith)

-- On a clock that advances, and with a poll interval of at least a millisecond, _cancel_and_settle
-- returns by its deadline: the fuel it has gives the same as any more.
cancel_and_settle-fuel :
    (br : Broker) (clock : IsClock br) (s : Settings) (i : br.OrderId) (w : br.World) (m : ℕ)
    → 0 < s.poll
    → s.settle < m
    → let w' = br.cancel_order i w in
      settle_from br s.poll m (br.now w' + s.settle) i (fill 0 0 unknown) w'
      ≡ cancel_and_settle br s i w
unfolding cancel_and_settle
cancel_and_settle-fuel br clock s i w m spaced enough =
    settle_from-fuel br clock s.poll spaced (suc s.settle) m _ i _ (br.cancel_order i w) enough
      (omega arith)
