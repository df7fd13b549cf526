-- ===== src/App/Main.antt =====
-- The programs of lwrcl/apps (src/ROSTypeData_main.cpp of each): they look for their configuration
-- beside the executable, make one node or two, and spin. `load` is YAML::LoadFile on a directory and
-- the rest of the path, and `none` its exception; `made` tells whether the constructor of `Node`
-- returned. An exception that `main` does not catch ends the program without any destructor.
pub mod Balance
pub mod Path
use rcl_like_wrapper_for_fas.Base.{
  ℕ, zero, suc, ◌+◌, Bool, true, false, Option, none, some, List, [], ◌∷◌, ◌++◌, ◌==◌,
  if◌then◌else◌,
}
use Prim.Native.String.{String}
use rcl_like_wrapper_for_fas.Endpoint.{Call, Answers, Result, ok, threw}
use rcl_like_wrapper_for_fas.Node.Ownership.{destroy}
use rcl_like_wrapper_for_fas.App.{Class, Config, Init, init}

-- The position of the last slash of a path, which is a list of bytes.
unfoldable pub rfind_slash : List ℕ → Option ℕ
rfind_slash [] = none
rfind_slash (c ∷ cs) = elim (rfind_slash cs) [
  | some pos ↦ some (suc pos)
  | none ↦ if c == 47 then some 0 else none
]

abbrev pub take : ℕ → List ℕ → List ℕ
take zero cs = []
take (suc n) [] = []
take (suc n) (c ∷ cs) = c ∷ take n cs

pub prefix : Option ℕ → List ℕ → List ℕ
prefix none path = []
prefix (some pos) path = take (pos + 1) path

unfoldable pub directory : List ℕ → List ℕ
unfolding prefix
directory path = prefix (rfind_slash path) path

-- `dangles` is a call through a pointer to a node that has been destroyed: what follows is undefined.
pub data Exit : Type 0 where
  exits : ℕ → Exit
  uncaught dangles : Exit

-- How a part of `main` ends, which nodes it gives to the executor, and what it asks of participants.
pub record Ran : Type 0 where
  pub exit : Exit
  pub added : List ℕ
  pub calls : List Call

-- The destructor of a node, at the end of `main`.
pub unwind : Exit → List Call → List Call
unwind (exits n) destroyed = destroyed
unwind uncaught destroyed = []
unwind dangles destroyed = []

pub after_init : Result Bool → Init → Ran → Ran
unfolding unwind
after_init (ok true) i rest = record rest {
  calls = i.calls ++ (rest.calls ++ unwind rest.exit (destroy i.owner));
}
after_init (ok false) i rest = record {
  exit = exits 1;
  added = [];
  calls = i.calls ++ destroy i.owner;
}
after_init (threw e) i rest = record { exit = uncaught; added = []; calls = i.calls }

pub record Part : Type 0 where
  pub class : Class
  pub made : Bool
  pub participant : String → Answers

unfoldable pub failed : Ran
failed = record { exit = uncaught; added = []; calls = [] }

pub configured : Part → Option Config → Ran → Ran
unfolding after_init failed
configured part none rest = failed
configured part (some c) rest =
    let i = init part.class part.participant c in after_init i.ended i rest

-- From the constructor of a node on, with what follows where its `init` returns true.
pub with_node : Part → Option Config → Ran → Ran
unfolding configured failed
with_node part config rest = if part.made then configured part config rest else failed

-- `spin` has returned.
abbrev pub spun : Ran
spun = record { exit = exits 0; added = []; calls = [] }

pub add_node : ℕ → Ran → Ran
add_node node r = record r { added = node ∷ r.added }

no_executable : Ran
no_executable = record { exit = exits 1; added = []; calls = [] }

-- The programs of one node, from what readlink gives.
unfoldable pub main : (List ℕ → String → Option Config) → Part → Option (List ℕ) → Ran
unfolding with_node no_executable
main load part none = no_executable
main load part (some path) = with_node part (load (directory path) "config/config.yaml") spun

-- The loop of `stop_spin` of an executor over its pointers, from which nodes live: does it come to
-- its end without a call on a destroyed node?
pub stop_nodes : (ℕ → Bool) → List ℕ → Bool
stop_nodes lives [] = true
stop_nodes lives (a ∷ added) = if lives a then stop_nodes lives added else false

pub ended : Exit → List ℕ → Exit
unfolding stop_nodes
ended (exits n) added = if stop_nodes (λ node. false) added then exits n else dangles
ended uncaught added = uncaught
ended dangles added = dangles

-- The destructor of the executor, which `main` declares before its nodes: it runs when they are
-- destroyed.
pub destroy_executor : Ran → Ran
unfolding ended
destroy_executor r = record r { exit = ended r.exit r.added }

-- The programs of two nodes, on an executor.
unfoldable pub executor_main :
    (List ℕ → String → Option Config) → Part → Part → Option (List ℕ) → Ran
unfolding with_node add_node no_executable destroy_executor
executor_main load part1 part2 none = no_executable
executor_main load part1 part2 (some path) = destroy_executor (
    with_node part1 (load (directory path) "config/config1.yaml") (
      add_node 1 (with_node part2 (load (directory path) "config/config2.yaml") (add_node 2 spun))))
