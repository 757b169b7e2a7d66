-- ===== src/Trap/Backtest/Spacing.antt =====
-- The trades of a backtest, one after the other.
use mathlib.Core.Path.{subst}
use mathlib.Core.Option.{some-injective, none-ne-some}
use Prim.Native.Nat.{◌≤◌, ◌<◌}
use option_chain_based_strat.Common.{
  ℕ, ◌≡◌, refl, sym, ap, ◌∙◌, keep_pass, keep_fail, ◌⊎◌, inl, inr, Bool, true, false, ◌||◌, Option,
  none, some, List, [], ◌∷◌, arith, leb, eqb, Bool-cases, sort_by, keep, get_last?, All, is_some,
  not,
}
use option_chain_based_strat.Common.Int.{ℤ, pos, leb_ℤ}
use option_chain_based_strat.Trap.Bars.{Bar}
use option_chain_based_strat.Trap.Backtest.{
  Setup, Reason, sl, target, squareoff, Trade, Options, Calendar, target_of, stop_of, still_open,
  passed_over, future, frame_of, Exit, find_exit, close_at, head?, or_square_off, exit_of, trade_at,
  trade_all, backtest, eligible,
}

-- The bar of a square-off: the last of the later bars of the day, or else, where there are none, the
-- first bar at the entry's own time.
abbrev pub SquareOffBar : Calendar → ℕ → List Bar → Bar → Type 0
SquareOffBar cal ts frame c =
    (get_last? (future cal ts frame) ≡ some c)
    ⊎ ((future cal ts frame ≡ []) × (head? (keep (λ b. eqb b.time ts) frame) ≡ some c))

-- No bar reaches the stop or the target.
abbrev pub Untouched : ℤ → ℕ → List Bar → Type 0
Untouched stop goal = All λ b. (leb_ℤ (pos b.low) stop ≡ false) × (leb goal b.high ≡ false)

-- A square-off in one of the frames: neither level was reached on a later bar of the day, and the
-- price is the close of the bar above.
abbrev pub SquaredOff : Calendar → Options → List Bar → Trade → Type 0
SquaredOff cal o df t =
    (frame : List Bar) × ((s : Setup) × (frame_of o df s ≡ frame))
    × Untouched t.sl_price t.target_price (future cal t.entry_ts frame)
    × ((c : Bar) × SquareOffBar cal t.entry_ts frame c
        × (t.exit_ts ≡ c.time)
        × (t.exit_price ≡ pos c.close))

-- The exit price is the one that its reason names.
abbrev pub PricedAs : Calendar → Options → List Bar → Reason → Trade → Type 0
PricedAs cal o df sl t = t.exit_price ≡ t.sl_price
PricedAs cal o df target t = t.exit_price ≡ pos t.target_price
PricedAs cal o df squareoff t = SquaredOff cal o df t

pub record IsTrade (cal : Calendar) (o : Options) (df : List Bar) (t : Trade) : Type 0 where
  pub forward : t.entry_ts ≤ t.exit_ts
  pub same_day : cal.day t.exit_ts ≡ cal.day t.entry_ts
  pub priced : PricedAs cal o df t.reason t

abbrev pub After : Option ℕ → ℕ → Type 0
After none ts = Unit
After (some u) ts = u < ts

-- Each trade is entered after the one before it was left.
abbrev pub Spaced : Calendar → Options → List Bar → Option ℕ → List Trade → Type 0
Spaced cal o df open_until [] = Unit
Spaced cal o df open_until (t ∷ ts) =
    After open_until t.entry_ts × IsTrade cal o df t × Spaced cal o df (some t.exit_ts) ts

abbrev OnDay : Calendar → ℕ → Bar → Type 0
OnDay cal ts b = (ts ≤ b.time) × (cal.day b.time ≡ cal.day ts)

module _ {A : Type 0} (p : A → Bool) where
  All-kept : (P : A → Type 0) → ((a : A) → p a ≡ true → P a) → (xs : List A) → All P (keep p xs)
  All-kept P f [] = tt
  All-kept P f (x ∷ xs) = elim (Bool-cases (p x)) [
    | inl hit ↦ subst (All P) (sym (keep_pass p x xs hit)) (f x hit, All-kept P f xs)
    | inr miss ↦ subst (All P) (sym (keep_fail p x xs miss)) (All-kept P f xs)
  ]

module _ {A : Type 0} where
  All-get_last? :
      (P : A → Type 0) (x : A) (xs : List A)
      → All P (x ∷ xs)
      → (a : A) × (get_last? (x ∷ xs) ≡ some a) × P a
  All-get_last? P x [] h = (x, refl, h.0)
  All-get_last? P x (y ∷ xs) h = All-get_last? P y xs h.1

find_exit-none :
    (stop : ℤ) (goal : ℕ) (bars : List Bar)
    → find_exit stop goal bars ≡ none
    → Untouched stop goal bars
unfolding find_exit
find_exit-none stop goal [] e = tt
find_exit-none stop goal (b ∷ bars) e = elim (Bool-cases (leb_ℤ (pos b.low) stop)) [
  | inl out ↦ absurd (none-ne-some (stop, sl, b.time) (sym (rw out at e)))
  | inr above ↦ elim (Bool-cases (leb goal b.high)) [
    | inl won ↦ absurd (none-ne-some (pos goal, target, b.time) (sym (rw (above, won) at e)))
    | inr not_yet ↦ ((above, not_yet), find_exit-none stop goal bars (rw (above, not_yet) at e))
  ]
]

module _ (cal : Calendar) (o : Options) (df : List Bar) (s : Setup) (ts : ℕ) where
  -- What is known of the bars that the square-off reads.
  abbrev frame : List Bar
  frame = frame_of o df s

  abbrev Yields : Option Exit → Type 0
  Yields none = Unit
  Yields (some x) = IsTrade cal o df (trade_at o s ts x)

  find_exit-Yields :
      (bars : List Bar)
      → All (OnDay cal ts) bars
      → Yields (find_exit (stop_of o s) (target_of s) bars)
  unfolding find_exit
  find_exit-Yields [] h = tt
  find_exit-Yields (b ∷ bars) ((later, day), hs) =
      elim (Bool-cases (leb_ℤ (pos b.low) (stop_of o s))) [
        | inl out ↦ rw out (record { forward = later; same_day = day; priced = refl })
        | inr above ↦ elim (Bool-cases (leb (target_of s) b.high)) [
          | inl won ↦ rw (above, won) (record { forward = later; same_day = day; priced = refl })
          | inr not_yet ↦ rw (above, not_yet) (find_exit-Yields bars hs)
        ]
      ]

  close_at-Yields :
      (b : Option Bar)
      → Untouched (stop_of o s) (target_of s) (future cal ts frame)
      → ((c : Bar) → b ≡ some c → OnDay cal ts c × SquareOffBar cal ts frame c)
      → Yields (close_at b)
  close_at-Yields none calm h = tt
  close_at-Yields (some b) calm h =
      let ((later, day), bar) = h b refl in
      record {
        forward = later;
        same_day = day;
        priced = (frame, (s, refl), calm, (b, bar, refl, refl));
      }

  head-OnDay :
      (bars : List Bar) → All (OnDay cal ts) bars → (c : Bar) → head? bars ≡ some c → OnDay cal ts c
  head-OnDay [] h c e = absurd (cc)
  head-OnDay (b ∷ bars) h c e = subst (OnDay cal ts) (some-injective _ _ e) h.0

  last-OnDay :
      (b : Bar) (bars : List Bar)
      → All (OnDay cal ts) (b ∷ bars)
      → (c : Bar) → get_last? (b ∷ bars) ≡ some c
      → OnDay cal ts c
  last-OnDay b bars h c e =
      let (a, q, k) = All-get_last? (OnDay cal ts) b bars h in
      subst (OnDay cal ts) (some-injective _ _ (sym q ∙ e)) k

  or_square_off-Yields :
      (x : Option Exit) (later : List Bar)
      → future cal ts frame ≡ later
      → (x ≡ none → Untouched (stop_of o s) (target_of s) (future cal ts frame))
      → All (OnDay cal ts) later
      → Yields x
      → Yields (or_square_off x ts later frame)
  or_square_off-Yields (some x) later e calm h y = y
  or_square_off-Yields none [] e calm h y =
      close_at-Yields _ (calm refl)
        λ c q. (head-OnDay _ (All-kept _ (OnDay cal ts) (λ b q. same b q) frame) c q, inr (e, q))
    where
      same : (b : Bar) → eqb b.time ts ≡ true → OnDay cal ts b
      same b q = let e : b.time ≡ ts = ground arith in (omega arith, ap cal.day e)
  or_square_off-Yields none (b ∷ later) e calm h y =
      close_at-Yields _ (calm refl) λ c q. (last-OnDay b later h c q, inl (ap get_last? e ∙ q))

  future-OnDay : (bars : List Bar) → All (OnDay cal ts) (future cal ts bars)
  future-OnDay bars = All-kept _ (OnDay cal ts) (λ b q. (ground arith, ground arith)) bars

  exit_of-Yields : Yields (exit_of cal o df s ts)
  unfolding exit_of
  exit_of-Yields =
      let later = future cal ts frame in
      or_square_off-Yields (find_exit (stop_of o s) (target_of s) later) later refl
        (find_exit-none (stop_of o s) (target_of s) later) (future-OnDay _)
        (find_exit-Yields later (future-OnDay _))

After-open :
    (open_until : Option ℕ) (ts : ℕ) → still_open open_until ts ≡ false → After open_until ts
After-open none ts h = tt
After-open (some u) ts h = ground arith

not_open :
    (cal : Calendar) (o : Options) (open_until : Option ℕ) (s : Setup) (ts : ℕ)
    → passed_over cal o open_until s ts ≡ false
    → still_open open_until ts ≡ false
not_open cal o open_until s ts h = or_right (not (is_some s.zone.trapped_on)) _ _ h
  where
    or_right : (a b c : Bool) → (a || (b || c)) ≡ false → b ≡ false
    or_right a b c k = ground arith

module _ (cal : Calendar) (o : Options) (df : List Bar) where
  trade_all-Spaced :
      (open_until : Option ℕ) (es : List (Setup × ℕ))
      → Spaced cal o df open_until (trade_all cal o df open_until es)
  unfolding trade_all
  trade_all-Spaced open_until [] = tt
  trade_all-Spaced open_until ((s, ts) ∷ rest) =
      go (passed_over cal o open_until s ts) (not_open cal o open_until s ts)
        (exit_of cal o df s ts) (exit_of-Yields cal o df s ts) (trade_all-Spaced open_until rest)
        (λ u. trade_all-Spaced (some u) rest)
    where
      go :
          (b : Bool)
          → (b ≡ false → still_open open_until ts ≡ false)
          → (x : Option Exit) → Yields cal o df s ts x
          → Spaced cal o df open_until (trade_all cal o df open_until rest)
          → ((u : ℕ) → Spaced cal o df (some u) (trade_all cal o df (some u) rest))
          → Spaced cal o df open_until (elim b [
            | true ↦ trade_all cal o df open_until rest
            | false ↦ elim x [
              | none ↦ trade_all cal o df open_until rest
              | some y ↦ trade_at o s ts y ∷ trade_all cal o df (some y.2) rest
            ]
          ])
      go true free x y skip on = skip
      go false free none y skip on = skip
      go false free (some x) y skip on = (After-open open_until ts (free refl), y, on x.2)

-- Every trade of a backtest is left no earlier than it is entered and on the same day: at the stop,
-- at the target, or at a square-off. A square-off is at the close of the last later bar of the day
-- in a frame, none of which reached the stop or the target, or, where there is no later bar, of the
-- first bar at the entry's time. And every trade is entered only after the one before it was left,
-- so that no two are open at once.
pub backtest-Spaced :
    (cal : Calendar) (o : Options) (df : List Bar) (setups : List Setup)
    → Spaced cal o df none (backtest cal o df setups)
unfolding backtest
backtest-Spaced cal o df setups =
    trade_all-Spaced cal o df none (sort_by (λ e. e.1) (eligible setups))
