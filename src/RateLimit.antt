-- ===== src/RateLimit.antt =====
-- `_consume_rate_limit_token` of main.py. A window is a minute, numbered from the epoch; the count
-- that Redis answers is an argument.
-- The rows of the rate limit events are not modelled.
mod Examples
use auth_claw.Prelude.{
  ==_iff, Bool, Bool-cases, List, Option, [], arith, false, if◌then◌else◌, inl, inr, keep, leb, ltb,
  none, not, refl, some, subst, true, ℕ, ◌&&◌, ◌+◌, ◌-◌, ◌<◌, ◌==◌, ◌↔◌, ◌∙◌, ◌∷◌, ◌≡◌,
}

pub record Count : Type 0 where
  pub tenant : ℕ
  pub window : ℕ
  pub count : ℕ

-- `_rate_limit_memory`
abbrev pub Memory : Type 0
Memory = List Count

abbrev is_at : ℕ → ℕ → Count → Bool
is_at tenant window c = c.tenant == tenant && c.window == window

-- _rate_limit_memory.get(state_key, 0)
get_count : ℕ → ℕ → Memory → ℕ
get_count tenant window [] = 0
get_count tenant window (c ∷ cs) =
    let rest = get_count tenant window cs in if is_at tenant window c then c.count else rest

-- _rate_limit_memory[state_key] = count
set_count : ℕ → ℕ → ℕ → Memory → Memory
set_count tenant window n [] = record { tenant = tenant; window = window; count = n } ∷ []
set_count tenant window n (c ∷ cs) =
    let rest = set_count tenant window n cs in
    if is_at tenant window c then record c { count = n } ∷ cs else c ∷ rest

-- The windows before the last one are dropped.
drop_stale : ℕ → Memory → Memory
drop_stale window mem = keep (λ c. not (ltb (c.window + 1) window)) mem

pub data Backend : Type 0 where
  redis_backend memory_backend : Backend

pub record Decision : Type 0 where
  pub allowed : Bool
  pub remaining : ℕ
  pub backend : Backend

unfoldable pub decision_of : Backend → ℕ → ℕ → Decision
decision_of backend limit n = record {
  allowed = leb n limit;
  remaining = limit - n;
  backend = backend;
}

-- What Redis does: REDIS_URL is not set, the counter's new value, or an exception.
pub data Redis : Type 0 where
  not_configured : Redis
  counted : ℕ → Redis
  failing : Redis

unfoldable pub count_in_memory : ℕ → ℕ → ℕ → Memory → Decision × Memory
unfolding get_count set_count drop_stale decision_of
count_in_memory tenant limit window mem =
    let n = get_count tenant window mem + 1 in
    (decision_of memory_backend limit n, drop_stale window (set_count tenant window n mem))

-- An answer without a decision is the exception of Redis, raised again: `required` stands for
-- _is_production_env() or the flag AUTHCLAW_REQUIRE_REDIS_RATE_LIMIT.
unfoldable pub consume_rate_limit_token :
    Redis → Bool → ℕ → ℕ → ℕ → Memory → Option Decision × Memory
unfolding count_in_memory decision_of
consume_rate_limit_token (counted n) required tenant limit window mem =
    (some (decision_of redis_backend limit n), mem)
consume_rate_limit_token failing true tenant limit window mem = (none, mem)
consume_rate_limit_token failing false tenant limit window mem =
    let (d, mem') = count_in_memory tenant limit window mem in (some d, mem')
consume_rate_limit_token not_configured required tenant limit window mem =
    let (d, mem') = count_in_memory tenant limit window mem in (some d, mem')

-- The memory after requests of the tenants, in one window and without Redis.
pub requests : Bool → ℕ → ℕ → List ℕ → Memory → Memory
unfolding consume_rate_limit_token
requests required limit window [] mem = mem
requests required limit window (t ∷ ts) mem =
    requests required limit window ts
      (consume_rate_limit_token not_configured required t limit window mem).1

unfoldable pub occurrences : ℕ → List ℕ → ℕ
occurrences tenant [] = 0
occurrences tenant (t ∷ ts) =
    let rest = occurrences tenant ts in if t == tenant then 1 + rest else rest

get_count-drop_stale :
    (tenant window : ℕ) (mem : Memory)
    → get_count tenant window (drop_stale window mem) ≡ get_count tenant window mem
unfolding get_count drop_stale
get_count-drop_stale tenant window [] = refl
get_count-drop_stale tenant window (c ∷ cs) =
    let ih = get_count-drop_stale tenant window cs in ground (arith, ih)

get_count-set_same :
    (tenant window n : ℕ) (mem : Memory)
    → get_count tenant window (set_count tenant window n mem) ≡ n
unfolding get_count set_count
get_count-set_same tenant window n [] = ground arith
get_count-set_same tenant window n (c ∷ cs) =
    let ih = get_count-set_same tenant window n cs in ground (arith, ih)

get_count-set_other :
    (tenant other window n : ℕ) (mem : Memory)
    → (other == tenant) ≡ false
    → get_count tenant window (set_count other window n mem) ≡ get_count tenant window mem
unfolding get_count set_count
get_count-set_other tenant other window n [] h = ground arith
get_count-set_other tenant other window n (c ∷ cs) h =
    let ih = get_count-set_other tenant other window n cs h in ground (arith, ih, h)

get_count-consume :
    (required : Bool) (tenant limit window t : ℕ) (mem : Memory)
    → get_count tenant window
        (consume_rate_limit_token not_configured required t limit window mem).1
      ≡ get_count tenant window mem + (if t == tenant then 1 else 0)
unfolding consume_rate_limit_token count_in_memory
get_count-consume required tenant limit window t mem =
    let n = get_count t window mem + 1 in
    get_count-drop_stale tenant window (set_count t window n mem)
    ∙ elim (Bool-cases (t == tenant)) [
      | inl e ↦
          let same = (==_iff t tenant).0 e in
          rw e (
            subst (λ k. get_count k window (set_count t window n mem) ≡ get_count k window mem + 1)
              same (get_count-set_same t window n mem))
      | inr e ↦ rw e (get_count-set_other tenant t window n mem e ∙ omega arith)
    ]

get_count-requests :
    (required : Bool) (tenant limit window : ℕ) (ts : List ℕ) (mem : Memory)
    → get_count tenant window (requests required limit window ts mem)
      ≡ get_count tenant window mem + occurrences tenant ts
unfolding requests occurrences
get_count-requests required tenant limit window [] mem = omega arith
get_count-requests required tenant limit window (t ∷ ts) mem =
    let ih =
      get_count-requests required tenant limit window ts
        (consume_rate_limit_token not_configured required t limit window mem).1 in
    let step = get_count-consume required tenant limit window t mem in ground (arith, ih, step)

-- The number of the request in its window decides.
abbrev pub IsFair : ℕ → ℕ → Option Decision → Type 0
IsFair limit earlier none = ⊥
IsFair limit earlier (some d) =
    ((d.allowed ≡ true) ↔ (earlier < limit)) × (d.remaining ≡ limit - (earlier + 1))

count_in_memory-IsFair :
    (tenant limit window earlier : ℕ) (mem : Memory)
    → get_count tenant window mem ≡ earlier
    → IsFair limit earlier (some (count_in_memory tenant limit window mem).0)
unfolding count_in_memory decision_of
count_in_memory-IsFair tenant limit window earlier mem h =
    rw h (((λ e. ground (arith, e)), (λ l. ground (arith, l))), refl)

-- Without Redis and from an empty memory, after requests of any tenants in one window, the next
-- request of a tenant gets a decision: it is allowed exactly when the tenant's earlier requests in
-- the window are fewer than its limit, and what remains is the limit less all its requests, this one
-- included, or 0.
pub requests-IsFair :
    (required : Bool) (tenant limit window : ℕ) (ts : List ℕ)
    → IsFair limit
        (occurrences tenant ts)
        (consume_rate_limit_token not_configured required tenant limit window
          (requests required limit window ts [])).0
unfolding consume_rate_limit_token get_count
requests-IsFair required tenant limit window ts =
    count_in_memory-IsFair tenant limit window (occurrences tenant ts)
      (requests required limit window ts [])
      (get_count-requests required tenant limit window ts [] ∙ omega arith)
