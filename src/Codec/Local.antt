-- ===== src/Codec/Local.antt =====
-- Readers that look no further than what they read: more input behind the buffer changes neither a
-- value nor a complaint about the content. Only `truncated` can be mended by more input.
use origindb.Prelude.{
  take-append_le, drop-append_le, ℕ, ◌≡◌, ◌≢◌, refl, Text, [], ◌∷◌, ◌++◌, length-append, arith,
  Bool, true, false, if◌then◌else◌,
}
use origindb.Codec.{
  Reader, Result, ok, err, truncated, unknown_tag, bind, pure, raise, ◌>>=◌, need_take, read_u8,
  read_u32, read_u64, read_str, read_bytes,
}

-- What `r` says of the front of the input, when `more` follows that front.
abbrev pub Extends {ℓ} : {A : Type ℓ} → Result (A × Text) → Text → Result (A × Text) → Type ℓ
Extends (ok (a, rest)) more whole = whole ≡ ok (a, rest ++ more)
Extends (err truncated) more whole = Unit {ℓ}
Extends (err unknown_tag) more whole = whole ≡ err unknown_tag

pub record IsLocal {ℓ} {A : Type ℓ} (p : Reader A) : Type ℓ where
  pub at : (ts more : Text) → Extends (p ts) more (p (ts ++ more))

pub need_take-IsLocal : (n : ℕ) → IsLocal (need_take n)
unfolding need_take
need_take-IsLocal n = record {
  at = λ ts more.
      ground (arith, length-append ts more, take-append_le n ts more, drop-append_le n ts more);
}

pub read_u8-IsLocal : IsLocal read_u8
unfolding read_u8
read_u8-IsLocal = record { at = at' }
  where
    at' : (ts more : Text) → Extends (read_u8 ts) more (read_u8 (ts ++ more))
    at' [] more = tt
    at' (b ∷ rest) more = refl

pub read_u32-IsLocal : IsLocal read_u32
unfolding read_u32
read_u32-IsLocal = record { at = at' }
  where
    at' : (ts more : Text) → Extends (read_u32 ts) more (read_u32 (ts ++ more))
    at' (a ∷ b ∷ c ∷ d ∷ rest) more = refl
    at' _ more = tt

pub read_u64-IsLocal : IsLocal read_u64
unfolding read_u64
read_u64-IsLocal = record { at = at' }
  where
    at' : (ts more : Text) → Extends (read_u64 ts) more (read_u64 (ts ++ more))
    at' (a ∷ b ∷ c ∷ d ∷ e ∷ f ∷ g ∷ h ∷ rest) more = refl
    at' _ more = tt

module _ {ℓ} {A : Type ℓ} where
  pub pure-IsLocal : (a : A) → IsLocal (pure a)
  pure-IsLocal a = record { at = λ ts more. refl }

  pub raise-IsLocal : IsLocal (raise {A = A} unknown_tag)
  raise-IsLocal = record { at = λ ts more. refl }

  pub if-IsLocal :
      (b : Bool) {p q : Reader A} → IsLocal p → IsLocal q → IsLocal (if b then p else q)
  if-IsLocal true kp kq = kp
  if-IsLocal false kp kq = kq

module _ {ℓ} {A B : Type ℓ} where
  bind-Extends :
      (f : A → Reader B)
      → ((a : A) → IsLocal (f a))
      → (r whole : Result (A × Text)) (more : Text) → Extends r more whole
      → Extends (bind r (λ (a, rest). f a rest)) more (bind whole (λ (a, rest). f a rest))
  bind-Extends f kf (ok (a, rest)) whole more h = rw h ((kf a).at rest more)
  bind-Extends f kf (err truncated) whole more h = tt
  bind-Extends f kf (err unknown_tag) whole more h = rw h refl

  pub bind-IsLocal :
      (p : Reader A) (f : A → Reader B) → IsLocal p → ((a : A) → IsLocal (f a)) → IsLocal (p >>= f)
  bind-IsLocal p f kp kf = record {
    at = λ ts more. bind-Extends f kf (p ts) (p (ts ++ more)) more (kp.at ts more);
  }

pub read_str-IsLocal : IsLocal read_str
unfolding read_str
read_str-IsLocal = bind-IsLocal read_u32 need_take read_u32-IsLocal need_take-IsLocal

pub read_bytes-IsLocal : IsLocal read_bytes
unfolding read_bytes
read_bytes-IsLocal = bind-IsLocal read_u32 need_take read_u32-IsLocal need_take-IsLocal

nil-ne-append : (x : ℕ) (rest back : Text) → [] ≢ rest ++ x ∷ back
nil-ne-append x [] back e = cc
nil-ne-append x (y ∷ rest) back e = cc

-- A local reader that reads a whole text answers `truncated` on every proper front of it.
pub truncated_of_IsLocal {ℓ} :
    {A : Type ℓ} (p : Reader A) (a : A) (front : Text) (x : ℕ) (back : Text)
    → IsLocal p
    → p (front ++ x ∷ back) ≡ ok (a, [])
    → p front ≡ err truncated
truncated_of_IsLocal {A} p a front x back kp whole = go (p front) (kp.at front (x ∷ back))
  where
    go : (r : Result (A × Text)) → Extends r (x ∷ back) (p (front ++ x ∷ back)) → r ≡ err truncated
    go (ok (b, rest)) h = absurd (nil-ne-append x rest back (cc (h, whole)))
    go (err truncated) h = refl
    go (err unknown_tag) h = cc (h, whole)
