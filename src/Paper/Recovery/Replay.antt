-- ===== src/Paper/Recovery/Replay.antt =====
-- Recovery replays what the broker did: from the fills of any series of orders it rebuilds the
-- broker's account.
use quantlab_v.Prelude.{◌≡◌, refl, false, List, [], ◌∷◌, arith, All, Text}
use quantlab_v.Prelude.Dict.{Dict}
use quantlab_v.Prelude.Sort.{IsSorted, sort_by_of_IsSorted}
use quantlab_v.Time.{DateTime, earlier}
use quantlab_v.Decimal.{Decimal}
use quantlab_v.Paper.Adapter.{
  MockExecutionAdapter, PaperOrder, PaperFill, new_adapter, set_prices, get_account, submit_order,
}
use quantlab_v.Paper.Recovery.{replay_fill, replay, filled_before, reconstruct_from_fills}

-- An order as it is submitted: with the prices that the adapter is given before it, and the
-- identifier and the moment of its fill.
pub record Submission : Type 0 where
  pub prices : Dict Decimal
  pub fill_id : Text
  pub now : DateTime
  pub order : PaperOrder

-- The fills that a series of submissions returns, and the adapter after it.
abbrev pub submit_all :
    List Submission → MockExecutionAdapter → List PaperFill × MockExecutionAdapter
submit_all [] a = ([], a)
submit_all (s ∷ ss) a =
    let (filled, fill, a') = submit_order s.fill_id s.now s.order (set_prices s.prices a) in
    let (fills, last) = submit_all ss a' in (fill ∷ fills, last)

abbrev pub books : MockExecutionAdapter → Decimal × Dict Decimal
books a = (a.cash, a.positions)

-- One fill, replayed on the books, is the submission, whatever the prices.
replay-submit :
    (s : Submission) (a : MockExecutionAdapter)
    → let (filled, fill, a') = submit_order s.fill_id s.now s.order (set_prices s.prices a) in
      replay_fill fill.side fill (books a) ≡ books a'
unfolding submit_order set_prices replay_fill
replay-submit s a = ground arith

replay-submit_all :
    (ss : List Submission) (a : MockExecutionAdapter)
    → let (fills, last) = submit_all ss a in replay fills (books a) ≡ books last
unfolding replay
replay-submit_all [] a = refl
replay-submit_all (s ∷ ss) a =
    rw (replay-submit s a, replay)
      (replay-submit_all ss (submit_order s.fill_id s.now s.order (set_prices s.prices a)).2)

-- Time does not run backwards.
abbrev pub InTime : List Submission → Type 0
InTime [] = Unit
InTime (s ∷ ss) = All (λ (r : Submission). earlier r.now s.now ≡ false) ss × InTime ss

fills_after :
    (t : PaperFill) (s : Submission) (ss : List Submission) (a : MockExecutionAdapter)
    → t.filled_at ≡ s.now
    → All (λ (r : Submission). earlier r.now s.now ≡ false) ss
    → All (λ (f : PaperFill). filled_before f t ≡ false) (submit_all ss a).0
unfolding submit_order
fills_after t s [] a e h = tt
fills_after t s (r ∷ rs) a e h = (rw e h.0, fills_after t s rs _ e h.1)

fills-IsSorted :
    (ss : List Submission) (a : MockExecutionAdapter)
    → InTime ss
    → IsSorted filled_before (submit_all ss a).0
unfolding submit_order
fills-IsSorted [] a h = tt
fills-IsSorted (s ∷ ss) a h =
    let (order, fill, a') = submit_order s.fill_id s.now s.order (set_prices s.prices a) in
    (fills_after fill s ss a' refl h.0, fills-IsSorted ss a' h.1)

-- However the orders were sized and whatever prices were set before each: if time did not run
-- backwards, the fills that a fresh adapter returned rebuild its account exactly, cash and
-- positions.
pub reconstruct-submit_all :
    (ss : List Submission) (id : Text) (cash bps commission : Decimal)
    → InTime ss
    → let (fills, last) = submit_all ss (new_adapter id cash bps commission) in
      reconstruct_from_fills last.account_id cash fills ≡ get_account last
unfolding reconstruct_from_fills get_account new_adapter
reconstruct-submit_all ss id cash bps commission h =
    let a = new_adapter id cash bps commission in
    rw (
      sort_by_of_IsSorted filled_before (submit_all ss a).0 (fills-IsSorted ss a h),
      replay-submit_all ss a,
    )
