-- ===== src/LoadGenerator/Runs.antt =====
-- tools/load-generator/generate.ts: the counters of a run.
use order_outbox_lab.Common.{
  ℕ, zero, suc, ◌+◌, ◌≡◌, ◌≤◌, refl, subst, List, [], ◌∷◌, Bool, true, false, some, Text,
  if◌then◌else◌, arith,
}
use order_outbox_lab.Orders.Validation.{JsNumber}
use order_outbox_lab.LoadGenerator.{
  LoadMode, Stats, Posted, unreachable, posted, unparsed, null_body, parsed, response_ok,
  create_order, send, send_batches, sum, Fraction, sizes_of, no_stats, summary, Arguments,
  read_args, run_args, main,
}
use order_outbox_lab.LoadGenerator.Batches.{burst_sizes-whole, steady_sizes-sum}

-- Did the request create an order?
abbrev pub creates : Posted → Bool
creates (unreachable message) = false
creates (posted status body) = response_ok status

-- How many of the requests from `first` on, `n` of them, created an order.
unfoldable pub count_created : (ℕ → Posted) → ℕ → ℕ → ℕ
count_created answers first zero = 0
count_created answers first (suc n) =
    (if creates (answers first) then 1 else 0) + count_created answers (suc first) n

-- Is the body of the response a JSON `null`?
abbrev pub is_null : Posted → Bool
is_null (posted status (null_body message)) = true
is_null (posted status unparsed) = false
is_null (posted status (parsed body)) = false
is_null (unreachable message) = false

-- How many of these `n` requests are answered with a JSON `null`.
unfoldable pub count_null : (ℕ → Posted) → ℕ → ℕ → ℕ
count_null answers first zero = 0
count_null answers first (suc n) =
    (if is_null (answers first) then 1 else 0) + count_null answers (suc first) n

create_order-stats :
    (p : Posted) (s : Stats)
    → ((create_order p s).stats.created ≡ (if creates p then 1 else 0) + s.created)
      × ((create_order p s).stats.created + (create_order p s).stats.rejected
          ≡ (if is_null p then 2 else 1) + (s.created + s.rejected))
unfolding create_order
create_order-stats (unreachable message) s = ground arith
create_order-stats (posted status unparsed) s = ground arith
create_order-stats (posted status (null_body message)) s = ground arith
create_order-stats (posted status (parsed body)) s = ground arith

module _ (answers : ℕ → Posted) where
  -- `n` requests from `first` on have been counted between `s` and `t`.
  abbrev Counted : ℕ → ℕ → Stats → Stats → Type 0
  Counted first n s t =
      (t.created ≡ count_created answers first n + s.created)
      × (t.created + t.rejected ≡ n + count_null answers first n + (s.created + s.rejected))

  send-Counted : (first n : ℕ) (s : Stats) → Counted first n s (send answers first n s)
  unfolding send count_created count_null
  send-Counted first zero s = ground arith
  send-Counted first (suc n) s =
      let t = (create_order (answers first) s).stats in
      let (c, d) = create_order-stats (answers first) s in
      let (e, f) = send-Counted (suc first) n t in (omega (arith, c, e), ground (arith, d, f))

  count_created-add :
      (first m n : ℕ)
      → count_created answers first (m + n)
        ≡ count_created answers first m + count_created answers (first + m) n
  unfolding count_created
  count_created-add first zero n =
      let e : 0 + n ≡ n = omega arith in
      let f : first + 0 ≡ first = omega arith in rw (e, f) (omega arith)
  count_created-add first (suc m) n =
      let e : suc m + n ≡ suc (m + n) = omega arith in
      let f : first + suc m ≡ suc first + m = omega arith in
      rw (e, f) (omega (arith, count_created-add (suc first) m n))

  count_null-add :
      (first m n : ℕ)
      → count_null answers first (m + n)
        ≡ count_null answers first m + count_null answers (first + m) n
  unfolding count_null
  count_null-add first zero n =
      let e : 0 + n ≡ n = omega arith in
      let f : first + 0 ≡ first = omega arith in rw (e, f) (omega arith)
  count_null-add first (suc m) n =
      let e : suc m + n ≡ suc (m + n) = omega arith in
      let f : first + suc m ≡ suc first + m = omega arith in
      rw (e, f) (omega (arith, count_null-add (suc first) m n))

  send_batches-Counted :
      (first : ℕ) (sizes : List ℕ) (s : Stats)
      → Counted first (sum sizes) s (send_batches answers first sizes s)
  unfolding send_batches sum count_created count_null
  send_batches-Counted first [] s = ground arith
  send_batches-Counted first (n ∷ ns) s =
      let (c, d) = send-Counted first n s in
      let (e, f) = send_batches-Counted (first + n) ns (send answers first n s) in
      (
        omega (arith, c, e, count_created-add first n (sum ns)),
        omega (arith, d, f, count_null-add first n (sum ns)),
      )

-- A burst of a whole number of orders at a time.
abbrev pub IsWhole : LoadMode → Fraction → Type 0
IsWhole LoadMode.burst f = (1 ≤ f.num) × (f.den ≡ 1)
IsWhole LoadMode.steady f = Unit

sizes_of-sum :
    (mode : LoadMode) (count : ℕ) (f : Fraction)
    → IsWhole mode f
    → sum (sizes_of mode count f) ≡ count
sizes_of-sum LoadMode.steady count f h = steady_sizes-sum count
sizes_of-sum LoadMode.burst count f (h, e) = rw e (burst_sizes-whole count f.num h).0

module _ (js : JsNumber) (fraction : js.Float → Fraction) (answers : ℕ → Posted) where
  -- With arguments that pass, and a whole concurrency for a burst, a run ends and prints its two
  -- counts, whatever the answers: `created` is the number of the requests, as many as the arguments
  -- say, whose response was 2xx, and `created` and `rejected` together count each request once, but
  -- one that is answered with a JSON `null` twice.
  pub main-counts :
      (argv : List Text) (args : Arguments js)
      → read_args js argv ≡ some args
      → IsWhole args.mode (fraction args.second)
      → (stats : Stats) × (main js fraction answers argv ≡ some (stats, summary stats))
        × (stats.created ≡ count_created answers 0 args.count)
        × (stats.created + stats.rejected ≡ args.count + count_null answers 0 args.count)
  unfolding main
  main-counts argv args e whole =
      let stats = run_args js fraction answers args in
      let sizes = sizes_of args.mode args.count (fraction args.second) in
      let (c, d) = send_batches-Counted answers 0 sizes no_stats in
      let same = sizes_of-sum args.mode args.count (fraction args.second) whole in
      let n = subst (λ m. stats.created ≡ count_created answers 0 m + 0) same c in
      let all =
        subst (λ m. stats.created + stats.rejected ≡ m + count_null answers 0 m + 0) same d in
      (stats, rw e refl, omega (arith, n), omega (arith, all))
