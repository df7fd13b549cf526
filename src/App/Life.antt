-- ===== src/App/Life.antt =====
-- The entities of the participant over the life of a node of lwrcl/apps, and when `init` succeeds.
use rcl_like_wrapper_for_fas.Base.{
  ◌≡◌, refl, sym, ap, Bool, true, false, Option, none, some, List, [], ◌∷◌, ◌++◌, ◌==◌, append-nil,
}
use Prim.Native.String.{String}
use rcl_like_wrapper_for_fas.Endpoint.{Error, Entity, Answers}
use rcl_like_wrapper_for_fas.Node.Ownership.{Owner, nothing, Create, create, create_all, destroy}
use rcl_like_wrapper_for_fas.Node.Ownership.Counts.{taken, given_back}
use rcl_like_wrapper_for_fas.Node.Ownership.Balance.{destroy-balance}
use rcl_like_wrapper_for_fas.App.{
  Config, Class, Init, error_of, and_then, create_until, when_positive, read_config, creates, init,
}

-- It has done what a run of creations does.
IsRun : Owner → Init → Type 0
IsRun o i =
    (done : List Create) × (i.calls ≡ (create_all done o).0) × (i.owner ≡ (create_all done o).1)

and_then-IsRun :
    (e : Option Error) (c : Create) (o : Owner) (rest : Init)
    → IsRun (create c o).1 rest
    → IsRun o (and_then e (create c o) rest)
unfolding and_then IsRun create_all
and_then-IsRun (some e) c o rest h = (c ∷ [], sym (append-nil (create c o).0), refl)
and_then-IsRun none c o rest (done, x, y) = (c ∷ done, ap (λ calls. (create c o).0 ++ calls) x, y)

create_until-IsRun : (cs : List Create) (o : Owner) → IsRun o (create_until cs o)
unfolding create_until IsRun create_all
create_until-IsRun [] o = ([], refl, refl)
create_until-IsRun (c ∷ cs) o =
    and_then-IsRun (error_of c) c o (create_until cs (create c o).1)
      (create_until-IsRun cs (create c o).1)

-- Whatever the participant answers to creations up to the first exception: once the node is destroyed,
-- each entity has been deleted as often as it was created or found.
pub create_until-IsBalanced :
    (e : Entity) (cs : List Create)
    → let i = create_until cs nothing in
      taken e (i.calls ++ destroy i.owner) ≡ given_back e (i.calls ++ destroy i.owner)
unfolding IsRun
create_until-IsBalanced e cs =
    let (done, x, y) = create_until-IsRun cs nothing in rw (x, y) (destroy-balance e done)

when_positive-IsRun : (b : Bool) (i : Init) → IsRun nothing i → IsRun nothing (when_positive b i)
unfolding when_positive IsRun create_all
when_positive-IsRun true i h = ([], refl, refl)
when_positive-IsRun false i h = h

-- Whatever its configuration says and the participant answers, and whether `init` returns true or
-- false or throws: once a node of the applications is destroyed, each entity of the participant has
-- been deleted as often as it was created or found.
pub init-balance :
    (e : Entity) (class : Class) (participant : String → Answers) (c : Config)
    → let i = init class participant c in
      taken e (i.calls ++ destroy i.owner) ≡ given_back e (i.calls ++ destroy i.owner)
unfolding init IsRun
init-balance e class participant c =
    let s = read_config class c in
    let cs = creates class participant s in
    let (done, x, y) =
      when_positive-IsRun (s.interval_ms_ == 0) (create_until cs nothing)
        (create_until-IsRun cs nothing) in
    rw (x, y) (destroy-balance e done)
