-- ===== src/Proxy/Body/Segments.antt =====
-- The body does not depend on how the network cut it into segments.
use ctc.Common.{
  ℕ, zero, suc, ◌+◌, ◌-◌, ◌≤◌, ◌≡◌, refl, ap, inl, inr, true, false, Bool-cases, some, List, [],
  ◌∷◌, ◌++◌, pos, length, ltb, leb, arith, if◌then◌else◌,
}
use ctc.Json.{Text}
use ctc.Proxy.Body.{
  Read, segment, end_of_file, Body, body, failed_body, take_bytes, prepend, fill_body,
  assemble_request_body,
}

-- The segments, none of them empty, as the socket gives them before the client closes.
abbrev pub Segments : Type 0
Segments = List (ℕ × Text)

unfoldable pub reads : Segments → List Read
reads [] = []
reads ((c, t) ∷ ss) = segment (c ∷ t) ∷ reads ss

-- All that the client sends.
unfoldable pub sent : Segments → Text
sent [] = []
sent ((c, t) ∷ ss) = (c ∷ t) ++ sent ss

-- The body that a client asks for with `n` bytes, out of all that it sends.
unfoldable pub first_bytes : ℕ → Text → Body
first_bytes n t = if leb n (length t) then body (take_bytes n t) else failed_body end_of_file

length-append : (s t : Text) → length (s ++ t) ≡ length s + length t
unfolding length
length-append [] t = omega arith
length-append (c ∷ s) t = rw (length-append s t) (omega arith)

take_bytes-within : (n : ℕ) (s t : Text) → n ≤ length s → take_bytes n (s ++ t) ≡ take_bytes n s
unfolding take_bytes length
take_bytes-within zero [] t h = take_zero t
  where
    take_zero : (t : Text) → take_bytes zero t ≡ []
    take_zero [] = refl
    take_zero (c ∷ t) = refl
take_bytes-within (suc n) [] t h = absurd (omega (arith, h))
take_bytes-within zero (c ∷ s) t h = refl
take_bytes-within (suc n) (c ∷ s) t h = rw (take_bytes-within n s t (omega (arith, h))) refl

sub_suc : (n k : ℕ) → suc n - suc k ≡ n - k
sub_suc n k = omega arith

take_bytes-beyond :
    (n : ℕ) (s t : Text) → length s ≤ n → take_bytes n (s ++ t) ≡ s ++ take_bytes (n - length s) t
unfolding take_bytes length
take_bytes-beyond n [] t h = ap (λ k. take_bytes k t) (no_less n)
  where
    no_less : (n : ℕ) → n ≡ n - 0
    no_less n = omega arith
take_bytes-beyond zero (c ∷ s) t h = absurd (omega (arith, h))
take_bytes-beyond (suc n) (c ∷ s) t h =
    rw (take_bytes-beyond n s t (omega (arith, h)), sub_suc n (length s)) refl

-- What comes before the rest that was asked for.
prepend-first_bytes :
    (n : ℕ) (s t : Text) (r : Body × List Read)
    → length s ≤ n
    → r.0 ≡ first_bytes (n - length s) t
    → (prepend s r).0 ≡ first_bytes n (s ++ t)
unfolding first_bytes
prepend-first_bytes n s t (b, rs) le h = elim (Bool-cases (leb (n - length s) (length t))) [
  | inl e ↦
      let enough : leb n (length (s ++ t)) ≡ true =
        rw (length-append s t) (more n (length s) (length t) le e) in
      rw (rw e at h, enough, take_bytes-beyond n s t le) refl
  | inr e ↦
      let short : leb n (length (s ++ t)) ≡ false =
        rw (length-append s t) (less n (length s) (length t) le e) in
      rw (rw e at h, short) refl
]
  where
    more : (n a b : ℕ) → a ≤ n → leb (n - a) b ≡ true → leb n (a + b) ≡ true
    more n a b le e = ground (arith, le, e)

    less : (n a b : ℕ) → a ≤ n → leb (n - a) b ≡ false → leb n (a + b) ≡ false
    less n a b le e = ground (arith, le, e)

-- A first part that has all that is asked for.
first_bytes-within :
    (n : ℕ) (s t : Text) → n ≤ length s → body (take_bytes n s) ≡ first_bytes n (s ++ t)
unfolding first_bytes
first_bytes-within n s t le =
    let enough : leb n (length (s ++ t)) ≡ true =
      rw (length-append s t) (long n (length s) (length t) le) in
    rw (enough, take_bytes-within n s t le) refl
  where
    long : (n a b : ℕ) → n ≤ a → leb n (a + b) ≡ true
    long n a b le = ground (arith, le)

first_bytes_none : (t : Text) → body [] ≡ first_bytes 0 t
unfolding first_bytes take_bytes
first_bytes_none [] = ground arith
first_bytes_none (c ∷ t) = ground arith

first_bytes_short : (m : ℕ) → failed_body end_of_file ≡ first_bytes (suc m) []
unfolding first_bytes length
first_bytes_short m = ground arith

fill_body-first_bytes :
    (ss : Segments) (missing : ℕ) → (fill_body missing (reads ss)).0 ≡ first_bytes missing (sent ss)
unfolding fill_body reads sent
fill_body-first_bytes ss zero = first_bytes_none (sent ss)
fill_body-first_bytes [] (suc m) = first_bytes_short m
fill_body-first_bytes ((c, t) ∷ ss) (suc m) = elim (Bool-cases (leb (length (c ∷ t)) (suc m))) [
  | inl part ↦ rw part (
      prepend-first_bytes (suc m) (c ∷ t) (sent ss) (fill_body (suc m - length (c ∷ t)) (reads ss))
        (le_of part) (fill_body-first_bytes ss (suc m - length (c ∷ t))))
  | inr whole ↦ rw whole (first_bytes-within (suc m) (c ∷ t) (sent ss) (ge_of whole))
]
  where
    le_of : {a b : ℕ} → leb a b ≡ true → a ≤ b
    le_of e = ground (arith, e)

    ge_of : {a b : ℕ} → leb a b ≡ false → b ≤ a
    ge_of e = ground (arith, e)

-- With a Content-Length of `n`, for a client that sends its bytes in any segments, none of them empty,
-- and then closes: the body is the first `n` bytes of all that it sent, what was read with the head
-- included, and an end of the file where it sent fewer.
pub assemble_request_body-first_bytes :
    (n : ℕ) (leftover : Text) (ss : Segments)
    → (assemble_request_body (some (pos n)) leftover (reads ss)).0
      ≡ first_bytes n (leftover ++ sent ss)
unfolding assemble_request_body
assemble_request_body-first_bytes n leftover ss = elim (Bool-cases (ltb n (length leftover))) [
  | inl over ↦ rw over (first_bytes-within n leftover (sent ss) (lt_of over))
  | inr short ↦ rw short (
      prepend-first_bytes n leftover (sent ss) (fill_body (n - length leftover) (reads ss))
        (ge_of short) (fill_body-first_bytes ss (n - length leftover)))
]
  where
    lt_of : {a b : ℕ} → ltb a b ≡ true → a ≤ b
    lt_of e = ground (arith, e)

    ge_of : {a b : ℕ} → ltb a b ≡ false → b ≤ a
    ge_of e = ground (arith, e)
