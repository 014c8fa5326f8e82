-- ===== src/Rates/Cached.antt =====
-- The cache of app/helpers/exchange_rate.py over a history of requests, while the rate table
-- changes under it.
use expense_world_engine.Base.{
  ℕ, ◌+◌, ◌*◌, ◌≡◌, ◌≤◌, ◌<◌, refl, sym, subst, ◌∙◌, true, false, Option, none, some, List, [], ◌∷◌,
  map, find, select, All, find_holds, ltb, Bool-cases, inl, inr, arith, if◌then◌else◌,
}
use expense_world_engine.Base.Rows.{All-find}
use expense_world_engine.Schema.{ExchangeRate}
use expense_world_engine.Text.{same_text_eq}
use expense_world_engine.Rates.{
  RateResult, CacheKey, CacheEntry, is_entry, ttl, drop_entry, set_entry, look_up, answer_from,
  get_keyed, fetch_rate_from_db,
}

-- A lookup: its key in upper case, when it reads the clock, and when the database answers, if asked
pub record Request : Type 0 where
  pub key : CacheKey
  pub started : ℕ
  pub answered : ℕ

-- The requests that a process serves, one after another; `table` is the rate table at an instant.
unfoldable pub serve_rates :
    (ℕ → List ExchangeRate) → List Request → List CacheEntry → List (Request × RateResult)
serve_rates table [] cache = []
serve_rates table (r ∷ rs) cache =
    let (v, cache') = get_keyed (table r.answered) r.started r.key cache in
    (r, v) ∷ serve_rates table rs cache'

-- Each starts once the one before is answered.
abbrev pub IsOrdered : ℕ → List Request → Type 0
IsOrdered t [] = Unit
IsOrdered t (r ∷ rs) = (t ≤ r.started) × ((r.started ≤ r.answered) × IsOrdered r.answered rs)

-- What the table says of a key
abbrev pub said : List ExchangeRate → CacheKey → RateResult
said rates k = fetch_rate_from_db rates k.source k.target k.as_of

-- How long an answer may be kept, in nanoseconds: an hour, and a minute where there is no rate
abbrev pub longest : RateResult → ℕ
longest none = 60 * 1000000000
longest (some _) = 3600 * 1000000000

ttl-longest : (v : RateResult) → ttl v ≤ longest v
ttl-longest none = omega arith
ttl-longest (some p) = omega arith

module _ (table : ℕ → List ExchangeRate) where
  -- The table said this at an instant that is past, and not as long ago as the answer may be kept.
  abbrev pub IsRecent : Request × RateResult → Type 0
  IsRecent a =
      (s : ℕ) × ((s ≤ a.0.answered)
        × ((a.1 ≡ said (table s) a.0.key) × (a.0.started < s + longest a.1)))

  -- An entry keeps what the table said, and expires in time.
  abbrev IsSound : ℕ → CacheEntry → Type 0
  IsSound t e =
      (s : ℕ) × ((s ≤ t) × ((e.value ≡ said (table s) e.key) × (e.expires_at ≤ s + ttl e.value)))

  later-IsSound :
      (t t' : ℕ) (es : List CacheEntry) → t ≤ t' → All (IsSound t) es → All (IsSound t') es
  later-IsSound t t' [] h a = tt
  later-IsSound t t' (e ∷ es) h a =
      ((a.0.0, (omega (arith, a.0.1.0, h), a.0.1.1)), later-IsSound t t' es h a.1)

  dropped :
      (t : ℕ) (k : CacheKey) (es : List CacheEntry)
      → All (IsSound t) es
      → All (IsSound t) (drop_entry k es)
  unfolding drop_entry select
  dropped t k [] a = tt
  dropped t k (e ∷ es) a = elim (Bool-cases (is_entry k e)) [
    | inl h ↦ rw h (dropped t k es a.1)
    | inr h ↦ rw h (a.0, dropped t k es a.1)
  ]

  longest_pos : (v : RateResult) → 0 < longest v
  longest_pos none = omega arith
  longest_pos (some p) = omega arith

  same_said :
      (rates : List ExchangeRate) (k : CacheKey) (e : CacheEntry)
      → is_entry k e ≡ true
      → said rates e.key ≡ said rates k
  same_said rates k e h =
      rw
        (
          same_text_eq e.key.source k.source (ground (arith, h)),
          same_text_eq e.key.target k.target (ground (arith, h)),
          same_date h,
        )
        refl
    where
      same_date : is_entry k e ≡ true → e.key.as_of ≡ k.as_of
      same_date i = ground (arith, i)

  -- What one request gives: its answer, and the cache that it leaves.
  abbrev Served : Request → RateResult × List CacheEntry → Type 0
  Served r p = IsRecent (r, p.0) × All (IsSound r.answered) p.1

  look_up-Served :
      (r : Request) (cache : List CacheEntry)
      → r.started ≤ r.answered
      → All (IsSound r.started) cache
      → Served r (look_up (table r.answered) r.started r.key cache)
  unfolding look_up set_entry
  look_up-Served r cache le a = (
    (
      r.answered,
      (omega arith, (refl, omega (arith, le, longest_pos (said (table r.answered) r.key)))),
    ),
    (
      (r.answered, (omega arith, (refl, omega (arith, le)))),
      dropped r.answered r.key cache (later-IsSound r.started r.answered cache le a),
    ),
  )

  kept-Served :
      (r : Request) (cache : List CacheEntry) (e : CacheEntry)
      → r.started ≤ r.answered
      → All (IsSound r.started) cache
      → is_entry r.key e ≡ true
      → IsSound r.started e
      → ltb r.started e.expires_at ≡ true
      → Served r (e.value, cache)
  kept-Served r cache e le a same sound early = (
    (
      sound.0,
      (
        omega (arith, sound.1.0, le),
        (
          sound.1.1.0 ∙ same_said (table sound.0) r.key e same,
          ground (arith, early, sound.1.1.1, ttl-longest e.value),
        ),
      ),
    ),
    later-IsSound r.started r.answered cache le a,
  )

  answer_from-Served :
      (r : Request) (cache : List CacheEntry) (o : Option CacheEntry)
      → r.started ≤ r.answered
      → All (IsSound r.started) cache
      → find (is_entry r.key) cache ≡ o
      → Served r (answer_from (table r.answered) r.started r.key cache o)
  unfolding answer_from
  answer_from-Served r cache none le a f = look_up-Served r cache le a
  answer_from-Served r cache (some e) le a f = elim (Bool-cases (ltb r.started e.expires_at)) [
    | inl h ↦ subst (Served r) (sym (fresh h)) (
        kept-Served r cache e le a (find_holds (is_entry r.key) cache e f)
          (All-find (IsSound r.started) (is_entry r.key) cache e a f) h)
    | inr h ↦
        subst (Served r) (sym (expired h))
          (look_up-Served r (drop_entry r.key cache) le (dropped _ r.key cache a))
  ]
    where
      again : RateResult × List CacheEntry
      again = look_up (table r.answered) r.started r.key (drop_entry r.key cache)

      fresh :
          ltb r.started e.expires_at ≡ true
          → (if ltb r.started e.expires_at then (e.value, cache) else again) ≡ (e.value, cache)
      fresh h = rw h refl

      expired :
          ltb r.started e.expires_at ≡ false
          → (if ltb r.started e.expires_at then (e.value, cache) else again) ≡ again
      expired h = rw h refl

  get_keyed-Served :
      (r : Request) (cache : List CacheEntry)
      → r.started ≤ r.answered
      → All (IsSound r.started) cache
      → Served r (get_keyed (table r.answered) r.started r.key cache)
  unfolding get_keyed
  get_keyed-Served r cache le a = answer_from-Served r cache (find (is_entry r.key) cache) le a refl

  served-IsRecent :
      (t : ℕ) (rs : List Request) (cache : List CacheEntry)
      → IsOrdered t rs
      → All (IsSound t) cache
      → All IsRecent (serve_rates table rs cache)
  unfolding serve_rates
  served-IsRecent t [] cache o a = tt
  served-IsRecent t (r ∷ rs) cache o a =
      let step = get_keyed-Served r cache o.1.0 (later-IsSound t r.started cache o.0 a) in
      (step.0, served-IsRecent r.answered rs _ o.1.1 step.1)

  -- However the rate table changes, every answer that a process gives, from an empty cache on, is
  -- what the table said at some instant no later than the answer and less than an hour before the
  -- request, or less than a minute before it where the answer is that there is no rate.
  pub serve_rates-IsRecent :
      (rs : List Request) → IsOrdered 0 rs → All IsRecent (serve_rates table rs [])
  serve_rates-IsRecent rs o = served-IsRecent 0 rs [] o tt

answers :
    (rates : List ExchangeRate) (rs : List Request) (cache : List CacheEntry)
    → All (IsRecent (λ _. rates)) (serve_rates (λ _. rates) rs cache)
    → serve_rates (λ _. rates) rs cache ≡ map (λ (r : Request). (r, said rates r.key)) rs
unfolding serve_rates
answers rates [] cache a = refl
answers rates (r ∷ rs) cache a = rw (a.0.1.1.0, answers rates rs _ a.1) refl

-- Under a table that does not change the cache is not seen: every answer is the uncached lookup.
pub serve_rates-fetch_rate_from_db :
    (rates : List ExchangeRate) (rs : List Request)
    → IsOrdered 0 rs
    → serve_rates (λ _. rates) rs []
      ≡ map (λ r. (r, fetch_rate_from_db rates r.key.source r.key.target r.key.as_of)) rs
serve_rates-fetch_rate_from_db rates rs o =
    answers rates rs [] (serve_rates-IsRecent (λ _. rates) rs o)
