-- ===== src/RateLimit/Window.antt =====
-- No window lets more than the limit through in a minute.
use rescs.Prelude.{
  String, string_eq, nat_eq, ℕ, ◌+◌, ◌≤◌, ◌<◌, ◌≡◌, refl, ap, sym, ◌∙◌, none, List, [], ◌∷◌, ◌++◌,
  leb, ltb, length, filter, All, arith, length-append, Bool-cases, inl, inr,
}
use rescs.Prelude.{length-filter-le, leb→lt}
use rescs.Dict.{get}
use rescs.Dict.Laws.{get-set_self}
use rescs.RateLimit.{Hits, Answer, passed, refused, admit, prune, window_of, minute}

-- The instants of the last minute before `now`.
abbrev pub recent : ℕ → List ℕ → List ℕ
recent now = filter (λ t. ltb now (t + minute))

-- Each instant is at most those that follow it.
abbrev pub IsRising : List ℕ → Type 0
IsRising [] = Unit
IsRising (t ∷ ts) = All (λ u. t ≤ u) ts × IsRising ts

-- On a window that rises, popping from the left leaves the instants of the last minute.
recent_rising :
    (now t : ℕ) (ts : List ℕ) → now < t + minute → All (λ u. t ≤ u) ts → recent now ts ≡ ts
recent_rising now t [] h k = refl
recent_rising now t (u ∷ us) h k = ground (arith, recent_rising now t us h k.1)

prune-eq-recent :
    (now : ℕ) (window : List ℕ) → IsRising window → prune now window ≡ recent now window
unfolding prune
prune-eq-recent now [] h = refl
prune-eq-recent now (t ∷ ts) h = ground (arith, prune-eq-recent now ts h.1, recent_rising now t ts)

-- What was out of the last minute stays out.
recent-recent : (m now : ℕ) (ts : List ℕ) → m ≤ now → recent now (recent m ts) ≡ recent now ts
recent-recent m now [] h = refl
recent-recent m now (t ∷ ts) h = ground (arith, recent-recent m now ts h)

recent-append : (now : ℕ) (ts : List ℕ) → recent now (ts ++ now ∷ []) ≡ recent now ts ++ now ∷ []
recent-append now [] = ground arith
recent-append now (t ∷ ts) = ground (arith, recent-append now ts)

All-recent : (P : ℕ → Type 0) (now : ℕ) (ts : List ℕ) → All P ts → All P (recent now ts)
All-recent P now [] h = tt
All-recent P now (t ∷ ts) h = ground (arith, All-recent P now ts h.1)

recent-IsRising : (now : ℕ) (ts : List ℕ) → IsRising ts → IsRising (recent now ts)
recent-IsRising now [] h = tt
recent-IsRising now (t ∷ ts) h =
    ground (arith, recent-IsRising now ts h.1, All-recent (λ u. t ≤ u) now ts h.0)

All-snoc : (P : ℕ → Type 0) (ts : List ℕ) (n : ℕ) → All P ts → P n → All P (ts ++ n ∷ [])
All-snoc P [] n h p = (p, tt)
All-snoc P (t ∷ ts) n h p = (h.0, All-snoc P ts n h.1 p)

All-weaken : (m n : ℕ) (ts : List ℕ) → m ≤ n → All (λ u. u ≤ m) ts → All (λ u. u ≤ n) ts
All-weaken m n [] h k = tt
All-weaken m n (t ∷ ts) h k = (omega arith, All-weaken m n ts h k.1)

IsRising-snoc : (ts : List ℕ) (n : ℕ) → IsRising ts → All (λ u. u ≤ n) ts → IsRising (ts ++ n ∷ [])
IsRising-snoc [] n h k = (tt, tt)
IsRising-snoc (t ∷ ts) n h k = (All-snoc (λ u. t ≤ u) ts n h.0 k.0, IsRising-snoc ts n h.1 k.1)

-- The log is that of requests up to `m`, and the window of the key holds its last minute.
pub record Tracks (limit : ℕ) (m : ℕ) (log window : List ℕ) : Type 0 where
  pub rising : IsRising log
  pub past : All (λ u. u ≤ m) log
  pub same : recent m window ≡ recent m log
  pub own_rising : IsRising window
  pub within : length (recent m log) ≤ limit

module _ (limit m now : ℕ) (log window : List ℕ) (later : m ≤ now)
    (h : Tracks limit m log window) where
  -- What is left of the window when a request comes in is the last minute of the log.
  pruned : prune now window ≡ recent now log
  pruned =
      prune-eq-recent now window h.own_rising
      ∙ sym (recent-recent m now window later)
      ∙ ap (recent now) h.same
      ∙ recent-recent m now log later

  pruned_within : length (recent now log) ≤ limit
  pruned_within =
      rw (← recent-recent m now log later)
        (omega (arith, length-filter-le (λ t. ltb now (t + minute)) (recent m log), h.within))

  Tracks-refused : Tracks limit now log (recent now log)
  Tracks-refused = record {
    rising = h.rising;
    past = All-weaken m now log later h.past;
    same = recent-recent now now log (omega arith);
    own_rising = recent-IsRising now log h.rising;
    within = pruned_within;
  }

  Tracks-passed :
      length (recent now log) < limit
      → Tracks limit now (log ++ now ∷ []) (recent now log ++ now ∷ [])
  Tracks-passed room = record {
    rising = IsRising-snoc log now h.rising (All-weaken m now log later h.past);
    past = All-snoc (λ u. u ≤ now) log now (All-weaken m now log later h.past) (omega arith);
    same =
        recent-append now (recent now log)
        ∙ ap (λ l. l ++ now ∷ []) (recent-recent now now log (omega arith))
        ∙ sym (recent-append now log);
    own_rising =
        IsRising-snoc (recent now log) now (recent-IsRising now log h.rising)
          (All-recent (λ u. u ≤ now) now log (All-weaken m now log later h.past));
    within = rw recent-append (omega (arith, length-append (recent now log) (now ∷ []), room));
  }

abbrev pub logged : Answer → ℕ → List ℕ → List ℕ
logged (passed _) now log = log ++ now ∷ []
logged (refused _) now log = log

-- One request keeps the window in step with the log.
admit-Tracks :
    (limit m now : ℕ) (key : String) (log : List ℕ) (hits : Hits)
    → m ≤ now
    → Tracks limit m log (window_of (get key hits))
    → let (answer, hits') = admit limit key now hits in
      Tracks limit now (logged answer now log) (window_of (get key hits'))
unfolding admit
admit-Tracks limit m now key log hits later h =
    let window = window_of (get key hits) in
    elim (Bool-cases (leb limit (length (prune now window)))) [
      | inl full ↦ rw full (
          rw get-set_self (
            rw (pruned limit m now log window later h)
              (Tracks-refused limit m now log window later h)))
      | inr room ↦ rw room (
          rw get-set_self (
            rw (pruned limit m now log window later h) (
              Tracks-passed limit m now log window later h (
                leb→lt limit (length (recent now log))
                  (rw (pruned limit m now log window later h) at room)))))
    ]

-- The requests of one key in a row, with the instants that were let through so far.
pub serve : ℕ → String → List ℕ → List ℕ → Hits → List ℕ × Hits
serve limit key [] log hits = (log, hits)
serve limit key (now ∷ times) log hits =
    let (answer, hits') = admit limit key now hits in
    serve limit key times (logged answer now log) hits'

-- The last instant of a row of requests that begins after `m`.
abbrev pub last_of : ℕ → List ℕ → ℕ
last_of m [] = m
last_of m (t ∷ ts) = last_of t ts

abbrev pub RisesFrom : ℕ → List ℕ → Type 0
RisesFrom m [] = Unit
RisesFrom m (t ∷ ts) = (m ≤ t) × RisesFrom t ts

serve-Tracks :
    (limit m : ℕ) (key : String) (times log : List ℕ) (hits : Hits)
    → RisesFrom m times
    → Tracks limit m log (window_of (get key hits))
    → let (log', hits') = serve limit key times log hits in
      Tracks limit (last_of m times) log' (window_of (get key hits'))
unfolding serve
serve-Tracks limit m key [] log hits rises h = h
serve-Tracks limit m key (now ∷ times) log hits rises h =
    let (answer, hits') = admit limit key now hits in
    serve-Tracks limit now key times (logged answer now log) hits' rises.1
      (admit-Tracks limit m now key log hits rises.0 h)

-- However many requests a new key makes, with none of another key in between, at instants that do not
-- go back, no more of them than the limit were let through in the minute that ends with the last one.
pub serve-within_limit :
    (limit : ℕ) (key : String) (times : List ℕ) (hits : Hits)
    → get key hits ≡ none
    → RisesFrom 0 times
    → length (recent (last_of 0 times) (serve limit key times [] hits).0) ≤ limit
serve-within_limit limit key times hits fresh rises =
    (serve-Tracks limit 0 key times [] hits rises (
      rw fresh (record {
        rising = tt;
        past = tt;
        same = refl;
        own_rising = tt;
        within = omega arith;
      }))).within
