-- ===== src/Sample/Programs/Clean.antt =====
-- The entities of a whole run of a sample program.
use rcl_like_wrapper_for_fas.Base.{ℕ, ◌≡◌, ◌⊎◌, some}
use Prim.Native.String.{String}
use rcl_like_wrapper_for_fas.Sample.{nullptrs}
use rcl_like_wrapper_for_fas.Sample.Life.{obey_all}
use rcl_like_wrapper_for_fas.Sample.Copies.{Sample, image}
use rcl_like_wrapper_for_fas.Sample.Main as arguments
use rcl_like_wrapper_for_fas.Sample.Programs.{running, overflows, returns, exits, Ran}

-- The program runs on, or a publisher's number overflows; `main` returns with nothing left; or a listener has called exit, which only
-- that of the images does.
IsClean : Sample → Ran → Type 0
IsClean sample r =
    (r.end ≡ running)
    ⊎ ((r.end ≡ overflows)
        ⊎ (((n : ℕ) × (r.end ≡ returns n) × (obey_all r.calls nullptrs ≡ some nullptrs))
            ⊎ ((r.end ≡ exits 255) × (sample ≡ image))))
