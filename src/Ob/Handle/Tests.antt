-- ===== src/Ob/Handle/Tests.antt =====
-- The theorems on handles at a chain of two databases, the first entry in use.
use nnxos.Prelude.{ℕ, ◌≡◌, refl, true, false, ◌&&◌, some, List, [], ◌∷◌, arith, ◌==◌, if◌then◌else◌}
use nnxos.Ntlist.Ring.Defs.{IsRing}
use nnxos.Ob.Handle.{Handles, get_entry_from_handle}
use nnxos.Ob.Handle.Counted.{Objects, Heads, head_for, create}
use nnxos.Ob.Handle.Counted.RoundTrip.{Closes, create-Closes}
use nnxos.Ob.Handle.Lookup.{get_entry_from_handle-nth_or}
use nnxos.Ob.Handle.Counted.Answers.{Answers, create-Answers}

-- The head is 10, the databases are 20 and 30.
abbrev handles : Handles
handles = record {
  links = record {
    next = λ a. if a == 10 then 20 else if a == 20 then 30 else 10;
    prev = λ a. if a == 10 then 30 else if a == 20 then 10 else 20;
  };
  object = λ d i. if (d == 20) && (i == 0) then 77 else 0;
  handle_count = λ o. 1;
}

abbrev databases : List ℕ
databases = 20 ∷ 30 ∷ []

handles-IsRing : IsRing handles.links 10 databases
handles-IsRing = record { distinct = ground arith; linked = ground arith }

get_entry_from_handle-nth_or_example :
    get_entry_from_handle 3 handles.links 516 10 ≡ some (some (30, 3))
get_entry_from_handle-nth_or_example =
    get_entry_from_handle-nth_or 3 handles.links 10 databases 516 handles-IsRing refl (λ e. cc)
      (omega arith) (omega arith)

-- The object 88 has one reference.
abbrev objects : Objects
objects = record {
  handles = handles;
  reference_count = λ o. 1;
  deleted = λ o. false;
  kernel_only = λ o. false;
}

-- The system's chain is the one at 10.
abbrev heads : Heads
heads = record { system = 10; process = 40 }

create-Closes_example : Closes 3 objects heads 88 (create 3 objects heads false true 88)
unfolding head_for
create-Closes_example =
    create-Closes 3 objects heads databases false true 88 handles-IsRing refl (omega arith) refl
      (ground arith) (omega arith) (omega arith) (omega arith)

create-Answers_example :
    Answers 3 objects 10 databases false 88 (create 3 objects heads false true 88)
unfolding head_for
create-Answers_example =
    create-Answers 3 objects heads databases false true 88 handles-IsRing refl (omega arith)
