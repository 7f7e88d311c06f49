-- ===== src/RateLimit/Examples.antt =====
-- The rate limiter with a limit of two.
use auth_claw.Prelude.{[], false, none, refl, some, true, ◌∷◌, ◌≡◌}
use auth_claw.RateLimit.{
  IsFair, consume_rate_limit_token, count_in_memory, decision_of, drop_stale, failing, get_count,
  memory_backend, not_configured, occurrences, requests, requests-IsFair, set_count,
}

requests-IsFair_example :
    IsFair 2
      (occurrences 3 (3 ∷ 4 ∷ 3 ∷ []))
      (consume_rate_limit_token not_configured true 3 2 100
        (requests true 2 100 (3 ∷ 4 ∷ 3 ∷ []) [])).0
requests-IsFair_example = requests-IsFair true 3 2 100 (3 ∷ 4 ∷ 3 ∷ [])

-- The second request of the tenant is the last one that is allowed.
second_request :
    (consume_rate_limit_token not_configured true 3 2 100 (requests true 2 100 (3 ∷ 4 ∷ []) [])).0
    ≡ some (record { allowed = true; remaining = 0; backend = memory_backend })
unfolding consume_rate_limit_token count_in_memory decision_of requests get_count set_count
    drop_stale
second_request = refl

-- Where Redis is required, its failure is raised; else the memory counts.
redis_fails :
    ((consume_rate_limit_token failing true 3 2 100 []).0 ≡ none)
    × ((consume_rate_limit_token failing false 3 0 100 []).0
        ≡ some (record { allowed = false; remaining = 0; backend = memory_backend }))
unfolding consume_rate_limit_token count_in_memory decision_of get_count
redis_fails = (refl, refl)
