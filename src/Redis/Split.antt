-- ===== src/Redis/Split.antt =====
-- The `token&type` entries of ApsRedisLocation.cpp.
use pushserver.Prelude.{◌≡◌, ◌≢◌, refl, [], ◌∷◌, ◌++◌, none, some, Bytes, All, ==_ne}
use mathlib.Core.Path.{ap₂}
use pushserver.Redis.{before_mark, behind_mark, split_location}

before_mark_append :
    (token type : Bytes) → All (λ b. b ≢ 38) token → before_mark (token ++ (38 ∷ type)) ≡ token
unfolding before_mark
before_mark_append [] type h = refl
before_mark_append (b ∷ bs) type h = rw (==_ne b 38 h.0, before_mark_append bs type h.1)

behind_mark_append :
    (token type : Bytes) → All (λ b. b ≢ 38) token → behind_mark (token ++ (38 ∷ type)) ≡ some type
unfolding behind_mark
behind_mark_append [] type h = refl
behind_mark_append (b ∷ bs) type h = rw (==_ne b 38 h.0, behind_mark_append bs type h.1)

-- An entry that a token, an `&` and a type were joined into is split into these, where the token
-- has no `&`; the type may have some.
pub split_location_join :
    (token type : Bytes)
    → All (λ b. b ≢ 38) token
    → split_location (token ++ (38 ∷ type)) ≡ (token, type)
unfolding split_location
split_location_join token type h =
    ap₂ (λ t o. (t, elim o [ none ↦ token ++ (38 ∷ type) | some u ↦ u ]))
      (before_mark_append token type h) (behind_mark_append token type h)
