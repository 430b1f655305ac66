-- ===== src/IoServer/RedisSubscriber/Sound.antt =====
-- That the program that stores a message of a Redis channel (IO-Server/src/Redissubscriber.cpp) is sound.
use velocity_vortex.Base.{ℕ, ◌≡◌, Option, none, some, List, ◌∷◌, length, codes, ◌⊎◌}
use velocity_vortex.IoServer.Library.{Library}
use velocity_vortex.IoServer.Program.{Program, BindValue}
use velocity_vortex.IoServer.Keeps.{Promise, Keeps}
use velocity_vortex.IoServer.Router.Sound.{marks}
use velocity_vortex.IoServer.RedisSubscriber.{Element, element, Reply}

module _ {L : Library} where
  -- The number of values that a parser gives, if it gives some.
  abbrev pub Gives : ℕ → Option (List (BindValue L)) → Type 0
  Gives n none = Unit
  Gives n (some params) = length params ≡ n

-- A message whose channel or text is an element with no text.
abbrev pub NoText : List Element → Type 0
NoText (element (some kind) ∷ channel ∷ message ∷ more) =
    (kind ≡ codes "message") × ((channel ≡ element none) ⊎ (message ≡ element none))
NoText _ = ⊥

abbrev pub Unreadable : Option Reply → Type 0
Unreadable none = ⊥
Unreadable (some reply) = NoText reply.elements

module _ {L : Library} where
  -- Each statement has a value for each question mark, and no exception gets out.
  abbrev pub sealed : Promise L (Unit {0})
  sealed = record {
    Sent = λ sql binds. marks sql ≡ length binds;
    Result = λ x. Unit;
    Escaped = λ e. ⊥;
  }

  abbrev pub Sealed : Program L (Unit {0}) → Type 0
  Sealed m = Keeps sealed m

  -- The program for a reply, if it is defined, is sealed.
  abbrev pub Handled : Option (Program L (Unit {0})) → Type 0
  Handled m = (n : Program L (Unit {0})) × (m ≡ some n) × Sealed n
