-- ===== src/Endpoint.antt =====
-- What the constructors of publisher.hpp and subscriber.hpp share: calls of the Fast DDS
-- participant, whose answers are arguments, recorded in the order in which they are made, and the
-- exceptions that end a constructor.
pub mod Balance
pub mod Tests
use rcl_like_wrapper_for_fas.Base.{
  ℕ, Bool, true, false, Option, none, some, List, [], ◌∷◌, ◌++◌, ◌==◌,
}

-- An entity of the participant: a topic, a DDS publisher or subscriber, a data writer or reader.
pub data Entity : Type 0 where
  topic group end_point : ℕ → Entity

pub data Call : Type 0 where
  registered : Bool → Call
  -- `lookup_topicdescription` found a topic, which is used from then on like a created one
  found : Entity → Call
  created : Entity → Call
  refused : Call
  deleted : Entity → Call

-- The exceptions, by what could not be made.
pub data Error : Type 0 where
  no_type no_topic no_group no_end_point : Error

pub data Result (A : Type 0) : Type 0 where
  ok : A → Result A
  threw : Error → Result A

pub record Traced (A : Type 0) : Type 0 where
  pub calls : List Call
  pub result : Result A

after : {A B : Type 0} → List Call → Result A → (A → Traced B) → Traced B
after calls (ok a) f = record { calls = calls ++ (f a).calls; result = (f a).result }
after calls (threw e) f = record { calls = calls; result = threw e }

infixl 5 ◌>>=◌ ◌>>◌
unfoldable pub ◌>>=◌ : {A B : Type 0} → Traced A → (A → Traced B) → Traced B
unfolding after
m >>= f = after m.calls m.result f

abbrev pub ◌>>◌ : {B : Type 0} → Traced (Unit {0}) → Traced B → Traced B
m >> k = m >>= λ _. k

abbrev pub call : Call → Traced (Unit {0})
call c = record { calls = c ∷ []; result = ok tt }

abbrev pub throw : {A : Type 0} → Error → Traced A
throw e = record { calls = []; result = threw e }

abbrev pub return : {A : Type 0} → A → Traced A
return a = record { calls = []; result = ok a }

-- The participant's answers during one constructor.
pub record Answers : Type 0 where
  pub register_type : Bool
  pub lookup_topicdescription : Option ℕ
  pub create_topic : Option ℕ
  pub create_group : Option ℕ
  pub create_end_point : Option ℕ

-- The pointers that the destructor finds.
pub record Handles : Type 0 where
  pub topic_ : ℕ
  pub group_ : ℕ
  pub end_point_ : ℕ
