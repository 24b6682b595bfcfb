-- ===== src/Leases/Timestamps.antt =====
-- `try_acquire_lease` of src/agent/repositories/workers_leases.rs compares timestamps as texts where
-- the other statements cast them to integers.
use clt_rs.Prelude.{
  ℕ, ◌+◌, ◌-◌, ◌*◌, ◌<◌, ◌≡◌, ap, Bool, true, ◌&&◌, not, List, [], ◌∷◌, arith, leb, Text, text_leb,
  is_digit, cast_digits, length,
}
use clt_rs.Store.{Lease, AgentWorker}
use clt_rs.Leases.{is_expired, is_reattached, worker_fences}

abbrev pub all_digits : Text → Bool
all_digits [] = true
all_digits (c ∷ cs) = is_digit c && all_digits cs

next_lt :
    (m n x y : ℕ)
    → m < n
    → is_digit x ≡ true
    → is_digit y ≡ true
    → m * 10 + (x - 48) < n * 10 + (y - 48)
next_lt m n x y h dx dy = ground arith

cast_digits_lt :
    (a b : Text) (m n : ℕ)
    → all_digits a ≡ true
    → all_digits b ≡ true
    → length a ≡ length b
    → m < n
    → cast_digits m a < cast_digits n b
unfolding cast_digits
cast_digits_lt [] [] m n da db e h = h
cast_digits_lt [] (y ∷ b) m n da db e h = absurd (omega (arith, e))
cast_digits_lt (x ∷ a) [] m n da db e h = absurd (omega (arith, e))
cast_digits_lt (x ∷ a) (y ∷ b) m n da db e h =
    ground (arith, cast_digits_lt a b (m * 10 + (x - 48)) (n * 10 + (y - 48)), next_lt m n x y h)

digits_order :
    (a b : Text) (n : ℕ)
    → all_digits a ≡ true
    → all_digits b ≡ true
    → length a ≡ length b
    → text_leb a b ≡ leb (cast_digits n a) (cast_digits n b)
unfolding cast_digits text_leb
digits_order [] [] n da db e = ground arith
digits_order [] (y ∷ b) n da db e = absurd (omega (arith, e))
digits_order (x ∷ a) [] n da db e = absurd (omega (arith, e))
digits_order (x ∷ a) (y ∷ b) n da db e = ground (
  arith,
  digits_order a b (n * 10 + (x - 48)),
  cast_digits_lt a b (n * 10 + (x - 48)) (n * 10 + (y - 48)),
  cast_digits_lt b a (n * 10 + (y - 48)) (n * 10 + (x - 48)),
  e,
)

-- Where the expiry and the present are written with equally many digits and nothing else, a lease
-- has run out exactly where its expiry as a number is not after the present, it is not a replacement
-- supervisor's and no active worker is under it.
pub is_expired-cast :
    (workers : List AgentWorker) (now : Text) (l : Lease)
    → all_digits l.expires_at ≡ true
    → all_digits now ≡ true
    → length l.expires_at ≡ length now
    → is_expired workers now l ≡ (
        leb (cast_digits 0 l.expires_at) (cast_digits 0 now)
        && not (is_reattached l.holder)
        && not (worker_fences workers l))
unfolding is_expired
is_expired-cast workers now l dl dn e =
    ap (λ b. b && not (is_reattached l.holder) && not (worker_fences workers l))
      (digits_order l.expires_at now 0 dl dn e)
