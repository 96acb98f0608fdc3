-- ===== src/RateLimit/Tests.antt =====
-- A bucket of five tokens, one every twelve seconds: the theorem at a concrete input.
use Prim.Native.Nat.{min}
use woongkie_talkie.Base.{
  ℕ, ◌+◌, ◌-◌, ◌≤◌, ◌≡◌, refl, Bool, true, false, List, [], ◌∷◌, leb, if◌then◌else◌, arith, ◌∙◌,
  sym,
}
use woongkie_talkie.RateLimit.{Bucket}
use woongkie_talkie.RateLimit.Forgetting.{
  Event, requests, ticks, answers, reference, forgetting_unnoticed,
}

-- The seconds of filling that the bucket holds, and when.
record Level : Type 0 where
  held : ℕ
  at_ : ℕ

abbrev holds : ℕ → Level → ℕ
holds now s = min 60 (s.held + (now - s.at_))

abbrev take_token : ℕ → Level → Bool × Level
take_token now s =
    if leb 12 (holds now s)
    then (true, record { held = holds now s - 12; at_ = now })
    else (false, record { held = holds now s; at_ = now })

abbrev Alike : ℕ → Level → Level → Type 0
Alike now s t = (s.at_ ≤ now) × (t.at_ ≤ now) × (holds now s ≡ holds now t)

Alike-later : (now then_ : ℕ) (s t : Level) → now ≤ then_ → Alike now s t → Alike then_ s t
Alike-later now then_ s t le (a, b, e) =
    (omega (arith, a, le), omega (arith, b, le), omega (arith, a, b, e, le))

same_answer : (now : ℕ) (s t : Level) → Alike now s t → (take_token now s).0 ≡ (take_token now t).0
same_answer now s t (a, b, e) = rw e refl

same_after :
    (now : ℕ) (s t : Level) → Alike now s t → Alike now (take_token now s).1 (take_token now t).1
same_after now s t (a, b, e) = rw e (ground arith)

filled :
    (last now : ℕ) (s : Level)
    → last + 60 ≤ now
    → Alike now (take_token last s).1 (record { held = 60; at_ = 0 })
filled last now s le = ground (arith, le)

abbrev five_tokens : Bucket
five_tokens = record {
  State = Level;
  new = record { held = 60; at_ = 0 };
  allow = take_token;
  Alike = Alike;
  Alike-sym = λ now s t (a, b, e). (b, a, sym e);
  Alike-trans = λ now s t u (a, b, e) (c, d, f). (a, d, e ∙ f);
  Alike-new = λ now. (omega arith, omega arith, refl);
  later = Alike-later;
  same_answer = same_answer;
  same_after = same_after;
  filled = filled;
}

-- Two addresses; the first is forgotten at second 900 and comes back.
abbrev traffic : List (ℕ × Event)
traffic =
    (1, requests "a")
    ∷ (2, requests "a")
    ∷ (250, requests "b")
    ∷ (300, ticks)
    ∷ (900, ticks)
    ∷ (901, requests "a")
    ∷ []

forgetting_unnoticed_example :
    answers five_tokens traffic [] ≡ reference five_tokens traffic (λ _. five_tokens.new)
forgetting_unnoticed_example = forgetting_unnoticed five_tokens 0 traffic (ground arith)
