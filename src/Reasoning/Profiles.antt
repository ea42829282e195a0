-- ===== src/Reasoning/Profiles.antt =====
-- crates/semanticore-core/src/reasoner.rs: what a reasoner says of itself. A set of OWL profiles is the
-- bits of a `u8`.
use Prim.Native.Nat.{bit_and, bit_or}
use semanticore.Prelude.{
  ℕ, zero, suc, ◌<◌, ◌≡◌, refl, Bool, true, false, not, ◌&&◌, ◌||◌, Option, none, ltb, ltb→lt,
  arith, Eq, ◌==◌, nat_eq, ℕ_discrete,
}

pub data OwlProfile : Type 0 where
  el ql rl dl : OwlProfile

unfoldable pub OwlProfile-discrete : Discrete OwlProfile
OwlProfile-discrete = hlevel

instance abbrev pub profile_eq : Eq OwlProfile
profile_eq = record { dec = OwlProfile-discrete }

-- `1 << k`
abbrev pub bit : OwlProfile → ℕ
bit OwlProfile.el = 1
bit OwlProfile.ql = 2
bit OwlProfile.rl = 4
bit OwlProfile.dl = 8

pub record ProfileSet : Type 0 where
  pub bits : ℕ

abbrev pub empty_profiles : ProfileSet
empty_profiles = record { bits = 0 }

unfoldable pub with_profile : ProfileSet → OwlProfile → ProfileSet
with_profile s p = record { bits = bit_or s.bits (bit p) }

-- in place, so the new set is returned
unfoldable pub insert_profile : ProfileSet → OwlProfile → ProfileSet
insert_profile s p = record { bits = bit_or s.bits (bit p) }

unfoldable pub contains_profile : ProfileSet → OwlProfile → Bool
contains_profile s p = not (bit_and s.bits (bit p) == 0)

unfoldable pub has_no_profile : ProfileSet → Bool
has_no_profile s = s.bits == 0

pub record ReasonerCapabilities : Type 0 where
  pub profiles : ProfileSet
  pub incremental : Bool
  pub persistent : Bool
  pub distributed : Bool
  pub explanation : Bool
  pub max_axioms : Option ℕ

abbrev pub default_capabilities : ReasonerCapabilities
default_capabilities = record {
  profiles = empty_profiles;
  incremental = false;
  persistent = false;
  distributed = false;
  explanation = false;
  max_axioms = none;
}

-- A test that holds of every value of a byte, tried one by one from the top.
tried : (ℕ → Bool) → ℕ → Bool
tried test zero = true
tried test (suc n) = test n && tried test n

tried-below : (test : ℕ → Bool) (n : ℕ) → tried test n ≡ true → (b : ℕ) → b < n → test b ≡ true
unfolding tried
tried-below test zero h b lt = absurd (omega arith)
tried-below test (suc n) h b lt = ground (arith, tried-below test n (ground arith) b)

-- every profile
every : (OwlProfile → Bool) → Bool
every test =
    test OwlProfile.el && (test OwlProfile.ql && (test OwlProfile.rl && test OwlProfile.dl))

every-holds : (test : OwlProfile → Bool) → every test ≡ true → (p : OwlProfile) → test p ≡ true
unfolding every
every-holds test h OwlProfile.el = ground arith
every-holds test h OwlProfile.ql = ground arith
every-holds test h OwlProfile.rl = ground arith
every-holds test h OwlProfile.dl = ground arith

abbrev same_answer : Bool → Bool → Bool
same_answer true b = b
same_answer false b = not b

same_answer→≡ : (a b : Bool) → same_answer a b ≡ true → a ≡ b
same_answer→≡ true b h = ground arith
same_answer→≡ false b h = ground arith

-- what adding `q` to the byte `b` does to the question whether `p` is in it
abbrev adds : OwlProfile → OwlProfile → ℕ → Bool
adds p q b =
    let s : ProfileSet = record { bits = b } in
    same_answer (contains_profile (with_profile s q) p) (p == q || contains_profile s p)
    && (not (has_no_profile (with_profile s q)) && ltb (with_profile s q).bits 256)

adds_always : tried (λ b. every (λ p. every (λ q. adds p q b))) 256 ≡ true
unfolding tried every contains_profile with_profile has_no_profile ℕ_discrete OwlProfile-discrete
adds_always = refl

-- Adding a profile to a set, which is a byte, adds that profile and no other, by either of the two
-- operations, and gives a byte of a set that is not empty.
pub contains_profile-with_profile :
    (s : ProfileSet) (p q : OwlProfile)
    → s.bits < 256
    → (contains_profile (with_profile s q) p ≡ (p == q || contains_profile s p))
      × (insert_profile s q ≡ with_profile s q)
      × ((with_profile s q).bits < 256)
      × (has_no_profile (with_profile s q) ≡ false)
contains_profile-with_profile s p q h =
    let tested = tried-below (λ b. every (λ p. every (λ q. adds p q b))) 256 adds_always s.bits h in
    let for_p = every-holds (λ p. every (λ q. adds p q s.bits)) tested p in
    let added = every-holds (λ q. adds p q s.bits) for_p q in
    (
      same_answer→≡ _ _ (ground arith),
      unfold insert_profile with_profile in refl,
      ltb→lt (with_profile s q).bits 256 (ground arith),
      ground arith,
    )
