-- ===== src/Producer/Inputs.antt =====
-- generateEventInput: what an event of the pool is drawn from.
use wb_test_task.Base.{ℕ, ◌/◌, ◌%◌, ◌<◌, ◌≡◌, refl, false, arith, inl, inr, ◌⊎◌, Bool-cases}
use wb_test_task.Base.Int.{ℤ, pos, negsuc, pos_part, leb_ℤ}
use wb_test_task.Base.Text.{Text, codes}
use wb_test_task.Unicode.Format.{decimal_padded}
use wb_test_task.Producer.{
  Rand, EventInput, Flags, popular_query, rare_query, user_name, session_name, address, or_text,
  weighted_query, pool_input, generate_event_input, max_nat,
}

-- A query of a pool of n.
abbrev pub IsPoolQuery : ℕ → Text → Type 0
IsPoolQuery n query =
    ((i : ℕ) × (i < max_nat 1 (n / 10)) × (query ≡ popular_query i))
    ⊎ ((i : ℕ) × (i < n) × (query ≡ rare_query i))

-- The one bot.
abbrev pub IsBot : EventInput → Type 0
IsBot g =
    (g.user_id ≡ codes "bot-actor")
    × (g.session_id ≡ codes "bot-session")
    × (g.ip ≡ codes "10.255.0.1")

positive : (n : ℤ) → 0 < pos_part n → leb_ℤ n (pos 0) ≡ false
positive (pos n) h = ground arith
positive (negsuc n) h = absurd (omega (arith, h))

module _ (rand : Rand) where
  open rand use {Rng, float64, intn, less, four_fifths, intn_below}

  -- One of the users, where the flags do not name one.
  abbrev pub IsPoolUser : Flags rand → EventInput → Type 0
  IsPoolUser flags g =
      (i : ℕ) × (a : ℕ) × (b : ℕ) × (i < pos_part flags.users)
      × (a < 255)
      × (b < 255)
      × (g.user_id ≡ or_text flags.user_id (user_name i))
      × (g.session_id ≡ or_text flags.session_id (session_name i))
      × (g.ip ≡ or_text flags.ip (address a b))

  weighted_query-IsPoolQuery :
      (n : ℕ) (rng : Rng) → 0 < n → IsPoolQuery n (weighted_query rand n rng).0
  unfolding weighted_query
  weighted_query-IsPoolQuery n rng h =
      let rng' = (float64 rng).1 in
      elim (Bool-cases (less (float64 rng).0 four_fifths)) [
        | inl e ↦ rw e (
            inl (
              (intn (max_nat 1 (n / 10)) rng').0,
              intn_below (max_nat 1 (n / 10)) rng' (ground arith),
              refl,
            ))
        | inr e ↦ rw e (inr ((intn n rng').0, intn_below n rng' h, refl))
      ]

  first_popular : codes "popular-query-000" ≡ popular_query 0
  unfolding decimal_padded
  first_popular = refl

  pool_input-drawn :
      (flags : Flags rand) (n : ℕ) (query : Text) (rng : Rng)
      → 0 < pos_part flags.users
      → IsPoolQuery n query
      → IsPoolQuery n (pool_input rand flags query rng).0.query
        × (IsBot (pool_input rand flags query rng).0
            ⊎ IsPoolUser flags (pool_input rand flags query rng).0)
  unfolding pool_input
  pool_input-drawn flags n query rng h q =
      let rng' = (float64 rng).1 in
      let i = (intn (pos_part flags.users) rng').0 in
      elim (Bool-cases (less (float64 rng).0 flags.bot_ratio)) [
        | inl e ↦ rw e (inl (0, ground arith, first_popular), inl (refl, refl, refl))
        | inr e ↦ rw e (
          q,
          inr (
            i,
            i / 255 % 255,
            i % 255,
            intn_below (pos_part flags.users) rng' h,
            omega arith,
            omega arith,
            refl,
            refl,
            refl,
          ),
        )
      ]

  -- With a pool of a positive size and a positive number of users, the query of a generated event is a
  -- popular one, of the first tenth of the pool or its first, or a rare one of the pool; and its actor
  -- is the bot, or has the user id, the session id and the address that the flags give, and for each of
  -- the three whose flag is empty the one of a user below the number of users, with an address whose
  -- last octets are below 255.
  pub generate_event_input-drawn :
      (flags : Flags rand) (rng : Rng)
      → 0 < pos_part flags.query_pool_size
      → 0 < pos_part flags.users
      → IsPoolQuery (pos_part flags.query_pool_size) (generate_event_input rand flags rng).0.query
        × (IsBot (generate_event_input rand flags rng).0
            ⊎ IsPoolUser flags (generate_event_input rand flags rng).0)
  unfolding generate_event_input
  generate_event_input-drawn flags rng p u =
      let n = pos_part flags.query_pool_size in
      let pool : leb_ℤ flags.query_pool_size (pos 0) ≡ false = positive flags.query_pool_size p in
      let (query, rng') = weighted_query rand n rng in
      rw pool (pool_input-drawn flags n query rng' u (weighted_query-IsPoolQuery n rng p))
