-- ===== src/Extern/PubSub.antt =====
-- The part of the crate embassy-sync that the URC channel uses: a publisher of a `PubSubChannel`.
use atat.Base.{
  ℕ, ◌≡◌, refl, Option, some, none, List, [], ◌∷◌, ◌++◌, length, ltb, if◌then◌else◌, Bool, true,
  false,
}

pub record PubSub (U : Type 0) : Type 1 where
  pub Channel : Type 0
  -- `none` where the channel is full.
  pub try_publish : U → Channel → Option Channel
  -- The channel when the future `publish` completes.
  pub publish : U → Channel → Channel
  -- All messages that were published so far. The code never reads it.
  pub published : Channel → List U

-- What is published goes behind what was published before.
pub record IsPubSub {U : Type 0} (p : PubSub U) : Type 0 where
  pub try_publish_lem :
      (u : U) (c d : p.Channel)
      → p.try_publish u c ≡ some d
      → p.published d ≡ p.published c ++ (u ∷ [])
  pub publish_lem :
      (u : U) (c : p.Channel) → p.published (p.publish u c) ≡ p.published c ++ (u ∷ [])

module _ {U : Type 0} where
  -- The log alone, in which `room` messages have their place.
  abbrev log_try : ℕ → U → List U → Option (List U)
  log_try room u c = if ltb (length c) room then some (c ++ (u ∷ [])) else none

  abbrev pub log : ℕ → PubSub U
  log room = record {
    Channel = List U;
    try_publish = log_try room;
    publish = λ u c. c ++ (u ∷ []);
    published = λ c. c;
  }

if_room : {C : Type 0} (b : Bool) (x d : C) → (if b then some x else none) ≡ some d → d ≡ x
if_room true x d h = cc
if_room false x d h = absurd cc

log_try-some :
    {U : Type 0} (room : ℕ) (u : U) (c d : List U) → log_try room u c ≡ some d → d ≡ c ++ (u ∷ [])
log_try-some room u c d = if_room (ltb (length c) room) (c ++ (u ∷ [])) d

pub log-IsPubSub : {U : Type 0} (room : ℕ) → IsPubSub (log {U = U} room)
log-IsPubSub room = record { try_publish_lem = log_try-some room; publish_lem = λ u c. refl }
