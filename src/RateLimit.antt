-- ===== src/RateLimit.antt =====
-- src/rescs/rate_limit.py: the sliding window of `RateLimitMiddleware`. The instants are those of
-- `time.monotonic`, in microseconds, and a key is the hash that the code computes.
pub mod Window
use Prim.Native.Nat.{max}
use Prim.Native.String
use text.Mathlib.Text.{starts_with}
use rescs.Prelude.{
  String, ◌==◌, string_eq, nat_eq, ℕ, zero, suc, ◌+◌, ◌-◌, ◌*◌, ◌/◌, Bool, true, false, not, ◌&&◌,
  ◌||◌, Option, none, some, List, [], ◌∷◌, ◌++◌, drop, leb, ltb, if◌then◌else◌, length, or_else,
}
use rescs.Dict
use rescs.Dict.{Dict, pop, set}

abbrev pub max_tracked_keys : ℕ
max_tracked_keys = 10000

-- The route classes.
pub data Bucket : Type 0 where
  general writes uploads : Bucket

-- `_bucket`
unfoldable pub bucket : String → String → Bucket
bucket path method =
    if starts_with path "/api/v1/uploads" || (starts_with path "/api/v1/files" && method == "POST")
    then uploads
    else if method == "POST" || method == "PUT" || method == "PATCH" || method == "DELETE"
    then writes
    else general

-- `self._hits`: the windows of the keys, the one used last at the end.
abbrev pub Hits : Type 0
Hits = Dict String (List ℕ)

abbrev pub minute : ℕ
minute = 60 * 1000000

-- `while window and window[0] <= now - 60: window.popleft()`
unfoldable pub prune : ℕ → List ℕ → List ℕ
prune now [] = []
prune now (t ∷ ts) = let rest = prune now ts in if leb (t + minute) now then rest else t ∷ ts

-- The window of a key, and the map with the key moved to its end.
abbrev pub window_of : Option (List ℕ) → List ℕ
window_of none = []
window_of (some window) = window

unfoldable pub touch : String → Hits → Hits
touch key hits = pop key hits ++ (key, window_of (Dict.get key hits)) ∷ []

-- `while len(self._hits) > MAX_TRACKED_KEYS: self._hits.popitem(last=False)`
unfoldable pub bound : Hits → Hits
bound hits = drop (length hits - max_tracked_keys) hits

-- The first of the window, which is there when the limit is reached.
abbrev pub first : List ℕ → ℕ
first [] = 0
first (t ∷ ts) = t

-- How the middleware answers: it passes the request on with what is left of the limit, or refuses it
-- with the seconds to wait.
pub data Answer : Type 0 where
  passed : ℕ → Answer
  refused : ℕ → Answer

-- `max(1, int(window[0] + 60 - now))`
unfoldable pub retry_after : List ℕ → ℕ → ℕ
retry_after window now = max 1 ((first window + minute - now) / 1000000)

-- `dispatch` for a request that is limited, from the lookup of the window on.
unfoldable pub admit : ℕ → String → ℕ → Hits → Answer × Hits
unfolding prune touch bound retry_after
admit limit key now hits =
    let tracked = bound (touch key hits) in
    let window = prune now (window_of (Dict.get key hits)) in
    if leb limit (length window)
    then (refused (retry_after window now), set key window tracked)
    else (passed (limit - length (window ++ now ∷ [])), set key (window ++ now ∷ []) tracked)

-- The settings that the middleware reads.
pub record Limits : Type 0 where
  pub enabled : Bool
  pub general_per_minute : ℕ
  pub writes_per_minute : ℕ
  pub uploads_per_minute : ℕ

-- `limits[bucket]`
abbrev pub limit_of : Limits → Bucket → ℕ
limit_of l general = l.general_per_minute
limit_of l writes = l.writes_per_minute
limit_of l uploads = l.uploads_per_minute

abbrev pub bucket_name : Bucket → String
bucket_name general = "general"
bucket_name writes = "writes"
bucket_name uploads = "uploads"

-- What the middleware reads of a request.
pub record Request : Type 0 where
  pub path : String
  pub method : String
  pub api_key : Option String

-- The hash of the key and the bucket; `hashlib.sha256(…).hexdigest()` is a parameter.
abbrev pub hit_key : (String → String) → Request → String
hit_key sha256 q = sha256 (
    String.◌++◌ (or_else q.api_key "anon") (String.◌++◌ ":" (bucket_name (bucket q.path q.method))))

-- `not enabled or path.startswith("/health") or path == "/"`
abbrev pub is_exempt : Limits → Request → Bool
is_exempt l q = not l.enabled || starts_with q.path "/health" || q.path == "/"

-- `dispatch`: a request that is not limited gets no answer of the limiter.
unfoldable pub dispatch : (String → String) → Limits → Request → ℕ → Hits → Option Answer × Hits
unfolding bucket admit
dispatch sha256 l q now hits =
    let limit = limit_of l (bucket q.path q.method) in
    let (answer, after) = admit limit (hit_key sha256 q) now hits in
    if is_exempt l q || limit == 0 then (none, hits) else (some answer, after)
