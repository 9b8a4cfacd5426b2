-- ===== src/LoadGenerator.antt =====
-- tools/load-generator/generate.ts: the arguments and the two shapes of traffic. The concurrency of a
-- burst may be any finite number from 1 up, so it is a fraction `num / den` here, and `sent` counts in
-- units of 1 / den. How the requests end is a parameter.
pub mod Batches
pub mod Runs
use order_outbox_lab.Common.{
  ℕ, zero, suc, ◌+◌, ◌-◌, ◌*◌, ◌/◌, ◌<◌, Bool, true, false, not, ◌&&◌, List, [], ◌∷◌, ◌++◌, Option,
  none, some, Text, codes, ltb, leb, ◌==◌, if◌then◌else◌, text_eq, ◌⊎◌, inl, inr,
}
use order_outbox_lab.Orders.Validation.{JsNumber, JsValue, CreateOrderBody}
use order_outbox_lab.Stages.{Roll}
use order_outbox_lab.Stages.Runner.{decimal}

pub data LoadMode : Type 0 where
  burst steady : LoadMode

pub record Stats : Type 0 where
  pub created : ℕ
  pub rejected : ℕ

abbrev pub mode_text : LoadMode → Text
mode_text LoadMode.burst = codes "burst"
mode_text LoadMode.steady = codes "steady"

-- `Object.values(LoadMode).includes(text)`
unfoldable pub mode_of : Text → Option LoadMode
unfolding text_eq
mode_of text =
    if text_eq text (mode_text LoadMode.burst)
    then some LoadMode.burst
    else (if text_eq text (mode_text LoadMode.steady) then some LoadMode.steady else none)

-- The defaults of the destructuring of `argv`.
abbrev pub argument : ℕ → Text → List Text → Text
argument n standard [] = standard
argument zero standard (a ∷ rest) = a
argument (suc n) standard (a ∷ rest) = argument n standard rest

module _ (js : JsNumber) where
  open js use {Float, of_text, is_finite, is_below_one, natural}

  pub record Arguments : Type 0 where
    pub mode : LoadMode
    pub count : ℕ
    pub second : Float

  abbrev pub checked_args : LoadMode → Option ℕ → Float → Option Arguments
  checked_args mode none second = none
  checked_args mode (some count) second =
      if leb 1 count && is_finite second && not (is_below_one second)
      then some (record { mode = mode; count = count; second = second })
      else none

  abbrev pub args_of : Option LoadMode → Text → Text → Option Arguments
  args_of none count second = none
  args_of (some mode) count second = checked_args mode (natural (of_text count)) (of_text second)

  -- `none`: the usage or the complaint is printed, and the process exits with 1.
  unfoldable pub read_args : List Text → Option Arguments
  unfolding mode_of
  read_args argv =
      args_of (mode_of (argument 0 (codes "steady") argv)) (argument 1 (codes "20") argv)
        (argument 2 (codes "1000") argv)

-- The JSON body of a response, as far as `createOrder` reads it.
pub record PostBody : Type 0 where
  pub id : Option Text
  pub message : Option Text

-- What `response.json()` ends with: an error, a JSON `null`, with the message of the TypeError that
-- the engine throws when a property of it is read, or another value.
pub data Body : Type 0 where
  unparsed : Body
  null_body : (message : Text) → Body
  parsed : PostBody → Body

-- How a POST ends: with an error, or with a response.
pub data Posted : Type 0 where
  unreachable : Text → Posted
  posted : (status : ℕ) (body : Body) → Posted

-- `response.ok`
abbrev pub response_ok : ℕ → Bool
response_ok status = leb 200 status && leb status 299

-- `await response.json().catch(() => ({}))`, which keeps a `null`: a property of the body is read, or
-- the message of the error comes of it.
abbrev pub body_of : Body → Text ⊎ PostBody
body_of unparsed = inr (record { id = none; message = none })
body_of (null_body message) = inl message
body_of (parsed body) = inr body

abbrev pub text_or : Text → Option Text → Text
text_or standard none = standard
text_or standard (some text) = text

-- The id that `createOrder` resolves to, the line that it prints, and the statistics after it.
pub record PostResult : Type 0 where
  pub id : Option Text
  pub line : Text
  pub stats : Stats

abbrev pub rejects : Text → Stats → PostResult
rejects line s = record { id = none; line = line; stats = record s { rejected = suc s.rejected } }

abbrev pub failed_request : Text → Stats → PostResult
failed_request message s = rejects (codes "request failed: " ++ message) s

-- Each counter is bumped before a property of the body is read, and the `catch` bumps `rejected` too.
abbrev pub answered : Bool → ℕ → Text ⊎ PostBody → Stats → PostResult
answered false status (inl message) s =
    failed_request message (record s { rejected = suc s.rejected })
answered false status (inr body) s =
    rejects (decimal status ++ (codes " " ++ text_or (codes "rejected") body.message)) s
answered true status (inl message) s = failed_request message (record s { created = suc s.created })
answered true status (inr body) s = record {
  id = body.id;
  line = codes "created " ++ text_or (codes "undefined") body.id;
  stats = record s { created = suc s.created };
}

unfoldable pub create_order : Posted → Stats → PostResult
create_order (unreachable message) s = failed_request message s
create_order (posted status body) s = answered (response_ok status) status (body_of body) s

abbrev pub min : ℕ → ℕ → ℕ
min a b = if leb a b then a else b

-- The number of requests in each batch of `burst`. `left` is `(count - sent) * den`; the length that
-- `Array.from` makes of a fraction is its whole part.
unfoldable pub burst_from : ℕ → ℕ → ℕ → ℕ → List ℕ
burst_from zero left num den = []
burst_from (suc fuel) left num den =
    let rest = burst_from fuel (left - num) num den in
    if left == 0 then [] else min num left / den ∷ rest

-- `sent` grows by at least 1, so `count` rounds are enough.
unfoldable pub burst_sizes : ℕ → ℕ → ℕ → List ℕ
burst_sizes count num den = burst_from count (count * den) num den

-- `steady` sends one order a round.
unfoldable pub steady_sizes : ℕ → List ℕ
steady_sizes zero = []
steady_sizes (suc count) = 1 ∷ steady_sizes count

unfoldable pub sum : List ℕ → ℕ
sum [] = 0
sum (n ∷ ns) = n + sum ns

-- The POST body of `randomOrder`; `roll` and `amount` come of `Math.random()`.
unfoldable pub random_order : (js : JsNumber) → Roll → js.Float → CreateOrderBody js
random_order js roll amount = record {
  customer_name = JsValue.string (codes "customer-" ++ decimal (roll.num * 10000 / roll.den));
  amount = JsValue.string (js.to_fixed2 amount);
}

-- `n` orders, of which the first is request number `first` in the order in which they end.
unfoldable pub send : (ℕ → Posted) → ℕ → ℕ → Stats → Stats
send answers first zero s = s
send answers first (suc n) s = send answers (suc first) n (create_order (answers first) s).stats

-- One batch after the other.
unfoldable pub send_batches : (ℕ → Posted) → ℕ → List ℕ → Stats → Stats
send_batches answers first [] s = s
send_batches answers first (n ∷ ns) s = send_batches answers (first + n) ns (send answers first n s)

-- A number that is at least 1, as `num / den`.
pub record Fraction : Type 0 where
  pub num : ℕ
  pub den : ℕ

abbrev pub sizes_of : LoadMode → ℕ → Fraction → List ℕ
sizes_of LoadMode.burst count second = burst_sizes count second.num second.den
sizes_of LoadMode.steady count second = steady_sizes count

abbrev pub no_stats : Stats
no_stats = record { created = 0; rejected = 0 }

-- The line break, and the line, that `main` prints at the end.
abbrev pub summary : Stats → Text
summary s =
    10 ∷ (decimal s.created ++ (codes " created, " ++ (decimal s.rejected ++ codes " failed")))

-- `fraction` gives the value of the second argument.
module _ (js : JsNumber) (fraction : js.Float → Fraction) (answers : ℕ → Posted) where
  abbrev pub run_args : Arguments js → Stats
  run_args args =
      send_batches answers 0 (sizes_of args.mode args.count (fraction args.second)) no_stats

  abbrev pub main_with : Option (Arguments js) → Option (Stats × Text)
  main_with none = none
  main_with (some args) = some (run_args args, summary (run_args args))

  -- `none`: the process exits with 1, and has sent nothing.
  unfoldable pub main : List Text → Option (Stats × Text)
  main argv = main_with (read_args js argv)
