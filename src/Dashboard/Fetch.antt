-- ===== src/Dashboard/Fetch.antt =====
-- public/js/api.js, and `Promise.all` of two requests.
use order_outbox_lab.Common.{ℕ, Bool, ◌&&◌, ◌++◌, Text, codes, leb, if◌then◌else◌}
use order_outbox_lab.Stages.Runner.{decimal}

-- How `fetch` ends: it rejects with an error, or there is a response, whose body is JSON or fails to
-- parse as such.
pub data Response (A : Type 0) : Type 0 where
  unreachable : Text → Response A
  malformed : (status : ℕ) (message : Text) → Response A
  response : (status : ℕ) (body : A) → Response A

-- A promise that has settled.
pub data Settled (A : Type 0) : Type 0 where
  resolved : A → Settled A
  rejected : Text → Settled A

-- `response.ok`
abbrev pub is_ok : ℕ → Bool
is_ok status = leb 200 status && leb status 299

abbrev pub refused : Text → ℕ → Text
refused path status = path ++ (codes " responded " ++ decimal status)

unfoldable pub get_json : {A : Type 0} → Text → Response A → Settled A
get_json path (unreachable message) = rejected message
get_json path (malformed status message) =
    if is_ok status then rejected message else rejected (refused path status)
get_json path (response status body) =
    if is_ok status then resolved body else rejected (refused path status)

-- The first rejection in time is the one that counts; `second_first`: the second comes first.
unfoldable pub promise_all : {A B : Type 0} → Bool → Settled A → Settled B → Settled (A × B)
promise_all second_first (resolved a) (resolved b) = resolved (a, b)
promise_all second_first (resolved a) (rejected e) = rejected e
promise_all second_first (rejected e) (resolved b) = rejected e
promise_all second_first (rejected e) (rejected f) = rejected (if second_first then f else e)
