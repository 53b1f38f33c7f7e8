-- ===== src/Main/Order.antt =====
-- The order between the threads of src/main.c: who uses the data ring while it is allocated
-- anew.
use sdrproxy.Prelude.{
  ◌≡◌, ◌⊎◌, inl, inr, refl, Bool, true, false, Option, none, some, if◌then◌else◌,
}
use sdrproxy.Util.{ChannelInfo}
use sdrproxy.Main.{
  MainPoint, watching, informed, joining, stopped, deallocated, allocated, cleared, ClientPoint,
  elsewhere, checking, System, start, main_step, Step, main_moves, client_reads, client_notifies,
  client_ends, server_closes, Reach, here, next,
}

-- The points between the first copy and the second.
abbrev pub is_changing : MainPoint → Bool
is_changing watching = false
is_changing cleared = false
is_changing _ = true

-- The points between `pthread_join` and `pthread_create`.
abbrev pub is_without_server : MainPoint → Bool
is_without_server stopped = true
is_without_server deallocated = true
is_without_server allocated = true
is_without_server cleared = true
is_without_server _ = false

-- The client's thread may be storing packets.
abbrev pub is_storing : ClientPoint → Bool
is_storing elsewhere = false
is_storing (checking inhibit_adc) = if inhibit_adc then false else true

abbrev pub is_allocated : Option ChannelInfo → Bool
is_allocated none = false
is_allocated (some c) = true

abbrev pub is_deallocated : MainPoint → Bool
is_deallocated deallocated = true
is_deallocated _ = false

pub record IsOrdered (s : System) : Type 0 where
  pub changing : is_changing s.main ≡ true → s.chanchange ≡ true
  pub storing : is_storing s.client ≡ true → s.chanchange ≡ false
  pub without : is_without_server s.main ≡ true → s.serving ≡ false
  pub known : s.server_running ≡ false → s.serving ≡ false
  pub held : is_deallocated s.main ≡ false → is_allocated s.memory ≡ true

main_step-IsOrdered :
    (p : MainPoint) (s : System) → s.main ≡ p → IsOrdered s → IsOrdered (main_step p s)
unfolding main_step
main_step-IsOrdered watching s e o = by_case s.chanchange refl
  where
    by_case :
        (b : Bool)
        → s.chanchange ≡ b
        → IsOrdered (if b then record s { main = informed; chan_info_g = s.chan_info } else s)
    by_case true set = record {
      changing = λ _. set;
      storing = o.storing;
      without = λ h. cc;
      known = o.known;
      held = λ _. o.held (rw e refl);
    }
    by_case false clear = o
main_step-IsOrdered informed s e o = by_case s.server_running refl
  where
    by_case :
        (b : Bool)
        → s.server_running ≡ b
        → IsOrdered (
            if b then record s { main = joining; closecmd = true } else record s { main = stopped })
    by_case true runs = record {
      changing = λ _. o.changing (rw e refl);
      storing = o.storing;
      without = λ h. cc;
      known = o.known;
      held = λ _. o.held (rw e refl);
    }
    by_case false none_runs = record {
      changing = λ _. o.changing (rw e refl);
      storing = o.storing;
      without = λ _. o.known none_runs;
      known = o.known;
      held = λ _. o.held (rw e refl);
    }
main_step-IsOrdered joining s e o = by_case s.serving refl
  where
    by_case :
        (b : Bool)
        → s.serving ≡ b
        → IsOrdered (if b then s else record s { main = stopped; server_running = false })
    by_case true serves = o
    by_case false ended = record {
      changing = λ _. o.changing (rw e refl);
      storing = o.storing;
      without = λ _. ended;
      known = λ _. ended;
      held = λ _. o.held (rw e refl);
    }
main_step-IsOrdered stopped s e o = record {
  changing = λ _. o.changing (rw e refl);
  storing = o.storing;
  without = λ _. o.without (rw e refl);
  known = o.known;
  held = λ h. cc;
}
main_step-IsOrdered deallocated s e o = record {
  changing = λ _. o.changing (rw e refl);
  storing = o.storing;
  without = λ _. o.without (rw e refl);
  known = o.known;
  held = λ _. refl;
}
main_step-IsOrdered allocated s e o = record {
  changing = λ h. cc;
  storing = λ _. refl;
  without = λ _. o.without (rw e refl);
  known = o.known;
  held = λ _. o.held (rw e refl);
}
main_step-IsOrdered cleared s e o = record {
  changing = λ h. cc;
  storing = o.storing;
  without = λ h. cc;
  known = λ h. cc;
  held = λ _. o.held (rw e refl);
}

reads-IsOrdered :
    (s : System) → IsOrdered s → IsOrdered (record s { client = checking s.chanchange })
reads-IsOrdered s o = record {
  changing = o.changing;
  storing = reads s.chanchange;
  without = o.without;
  known = o.known;
  held = o.held;
}
  where
    reads : (b : Bool) → is_storing (checking b) ≡ true → b ≡ false
    reads true h = cc
    reads false h = refl

Step-IsOrdered : {s t : System} → Step s t → IsOrdered s → IsOrdered t
Step-IsOrdered (main_moves s) o = main_step-IsOrdered s.main s refl o
Step-IsOrdered (client_reads s e) o = reads-IsOrdered s o
Step-IsOrdered (client_notifies s inhibit_adc new e) o = record {
  changing = λ _. refl;
  storing = λ h. cc;
  without = o.without;
  known = o.known;
  held = o.held;
}
Step-IsOrdered (client_ends s inhibit_adc e) o = record {
  changing = o.changing;
  storing = λ h. cc;
  without = o.without;
  known = o.known;
  held = o.held;
}
Step-IsOrdered (server_closes s serves closes) o = record {
  changing = o.changing;
  storing = o.storing;
  without = λ _. refl;
  known = λ _. refl;
  held = o.held;
}

pub Reach-IsOrdered : {s t : System} → IsOrdered s → Reach s t → IsOrdered t
Reach-IsOrdered o here = o
Reach-IsOrdered o (next r st) = Step-IsOrdered st (Reach-IsOrdered o r)

pub start-IsOrdered : (zeros : ChannelInfo) → IsOrdered (start zeros)
start-IsOrdered zeros = record {
  changing = λ h. cc;
  storing = λ h. cc;
  without = λ h. cc;
  known = λ _. refl;
  held = λ _. refl;
}

-- The points at which the data ring is allocated anew.
abbrev pub is_reallocating : MainPoint → Bool
is_reallocating stopped = true
is_reallocating deallocated = true
is_reallocating _ = false

-- Neither thread uses the data ring.
abbrev pub IsAlone : System → Type 0
IsAlone s = (is_storing s.client ≡ false) × (s.serving ≡ false)

alone :
    (p : MainPoint) (s : System) → s.main ≡ p → IsOrdered s → is_reallocating p ≡ true → IsAlone s
alone p s e o h = (not_storing (is_storing s.client) refl, o.without (rw e (without p h)))
  where
    changes : (q : MainPoint) → is_reallocating q ≡ true → is_changing q ≡ true
    changes stopped h' = refl
    changes deallocated h' = refl
    changes watching h' = cc
    changes informed h' = cc
    changes joining h' = cc
    changes allocated h' = cc
    changes cleared h' = cc

    without : (q : MainPoint) → is_reallocating q ≡ true → is_without_server q ≡ true
    without stopped h' = refl
    without deallocated h' = refl
    without watching h' = cc
    without informed h' = cc
    without joining h' = cc
    without allocated h' = cc
    without cleared h' = cc

    not_storing : (b : Bool) → is_storing s.client ≡ b → is_storing s.client ≡ false
    not_storing false e' = e'
    not_storing true e' =
        let set : s.chanchange ≡ true = o.changing (rw e (changes p h)) in
        let clear : s.chanchange ≡ false = o.storing e' in cc

-- In every state that the threads reach from the start, in whatever order they step, neither the
-- client's thread stores nor the server's thread runs while the main thread frees and allocates the
-- data ring, and where one of them does, the data ring is allocated.
pub Reach-IsAlone :
    (zeros : ChannelInfo) (s : System)
    → Reach (start zeros) s
    → (is_reallocating s.main ≡ true → IsAlone s)
      × (((is_storing s.client ≡ true) ⊎ (s.serving ≡ true)) → is_allocated s.memory ≡ true)
Reach-IsAlone zeros s r =
    let o = Reach-IsOrdered (start-IsOrdered zeros) r in
    (alone s.main s refl o, used (is_deallocated s.main) refl o)
  where
    reallocates : (p : MainPoint) → is_deallocated p ≡ true → is_reallocating p ≡ true
    reallocates deallocated h = refl
    reallocates watching h = cc
    reallocates informed h = cc
    reallocates joining h = cc
    reallocates stopped h = cc
    reallocates allocated h = cc
    reallocates cleared h = cc

    used :
        (b : Bool)
        → is_deallocated s.main ≡ b
        → IsOrdered s
        → ((is_storing s.client ≡ true) ⊎ (s.serving ≡ true))
        → is_allocated s.memory ≡ true
    used false e o h = o.held e
    used true e o (inl stores) =
        let (idle, gone) = alone s.main s refl o (reallocates s.main e) in cc
    used true e o (inr serves) =
        let (idle, gone) = alone s.main s refl o (reallocates s.main e) in cc
