-- ===== src/Tests/Tools.antt =====
-- The theorems on the load generator, printed numbers and SUBSCRIBE, at concrete inputs, and runs.
use order_outbox_lab.Common.{List, ℕ, ◌≡◌, refl, true, [], ◌∷◌, codes, arith}
use order_outbox_lab.Common.{◌+◌, ◌==◌, if◌then◌else◌, Option, none, some, Text, text_eq}
use order_outbox_lab.LoadGenerator.{
  burst_sizes, burst_from, sum, LoadMode, Stats, Posted, unreachable, posted, null_body, parsed,
  Fraction, Arguments, read_args, mode_of, main, summary, send, send_batches, create_order,
}
use order_outbox_lab.LoadGenerator.Runs.{count_created, count_null, main-counts}
use order_outbox_lab.Samples.Numbers.{sample_js}
use order_outbox_lab.EventBus.Commands.{Call}
use order_outbox_lab.Stages.Runner.{decimal, decimal_from}

-- With a concurrency of 3/2, a burst of 3 sends 2 requests.
fraction_sends_fewer : sum (burst_sizes 3 3 2) ≡ 2
unfolding sum burst_sizes burst_from
fraction_sends_fewer = refl

prints : decimal 1207 ≡ codes "1207"
unfolding decimal decimal_from
prints = refl

abbrev two_calls : List Call
two_calls =
    record { accepts = true; channel = codes "c"; handler = 1 }
    ∷ record { accepts = true; channel = codes "c"; handler = 2 }
    ∷ []

abbrev arguments : List Text
arguments = codes "burst" ∷ codes "3" ∷ codes "2" ∷ []

-- The first request fails, the second is answered with a JSON `null`, the others create orders.
abbrev some_answers : ℕ → Posted
some_answers n =
    if n == 0
    then unreachable (codes "down")
    else if n == 1
    then posted 201 (null_body (codes "Cannot read properties of null (reading 'id')"))
    else posted 201 (parsed (record { id = some (codes "a"); message = none }))

abbrev whole_part : Option ℕ → Fraction
whole_part none = record { num = 1; den = 1 }
whole_part (some n) = record { num = n; den = 1 }

abbrev sample_fraction : sample_js.Float → Fraction
unfolding sample_js
sample_fraction = whole_part

abbrev burst_of_3 : Arguments sample_js
unfolding sample_js
burst_of_3 = record { mode = LoadMode.burst; count = 3; second = some 2 }

main-counts_example :
    (stats : Stats) × (main sample_js sample_fraction some_answers arguments
      ≡ some (stats, summary stats))
    × (stats.created ≡ count_created some_answers 0 3)
    × (stats.created + stats.rejected ≡ 3 + count_null some_answers 0 3)
unfolding sample_js read_args mode_of text_eq
main-counts_example =
    main-counts sample_js sample_fraction some_answers arguments burst_of_3 refl (omega arith, refl)

-- What that run of 3 requests prints.
counted :
    main sample_js sample_fraction some_answers arguments
    ≡ some (record { created = 2; rejected = 2 }, 10 ∷ codes "2 created, 2 failed")
unfolding sample_js main read_args mode_of text_eq send_batches send create_order burst_sizes
    burst_from decimal decimal_from
counted = refl
