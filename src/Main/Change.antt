-- ===== src/Main/Change.antt =====
-- The change of the channels in src/main.c, run to its end: alone, and while the client's thread
-- receives new channel information again; and the data ring that it leaves.
use sdrproxy.Prelude.{ℕ, ◌≡◌, refl, ap, subst, ◌∙◌, Bool, true, false, none, some, List, [], pos}
use sdrproxy.Util.{ChannelInfo, sdr_pkt_size}
use sdrproxy.Databfr.{DataRing, Outcome, done, fault, failed, blocked, ◌>>=◌}
use sdrproxy.Databfr.Valid.{IsValid, contents}
use sdrproxy.Databfr.Ops.{Allocator, Reply, alloc, dealloc, switch, data_ring_ops}
use sdrproxy.Databfr.Alloc.{Serves, Allocates, alloc-Allocates}
use sdrproxy.Databfr.Run.{relock}
use sdrproxy.Main.{
  MainPoint, watching, informed, joining, stopped, deallocated, allocated, cleared, elsewhere,
  checking, System, main_step, Step, main_moves, client_reads, client_notifies, server_closes,
  Reach, here, next, reallocate,
}

moves : (s t : System) (p : MainPoint) → s.main ≡ p → main_step p s ≡ t → Step s t
moves s t p e e' = subst (Step s) (ap (λ q. main_step q s) e ∙ e') (main_moves s)

Reach-trans : {s t u : System} → Reach s t → Reach t u → Reach s u
Reach-trans r here = r
Reach-trans r (next r' st) = next (Reach-trans r r') st

-- The server's thread has ended, and nothing else but the first copy is made.
record Stops (s t : System) : Type 0 where
  reached : Reach s t
  at : t.main ≡ stopped
  copied : t.chan_info_g ≡ s.chan_info
  same_info : t.chan_info ≡ s.chan_info
  same_client : t.client ≡ s.client
  set : t.chanchange ≡ true

joining-Stops :
    (s t : System)
    → Reach s t
    → t.main ≡ joining
    → t.closecmd ≡ true
    → (t.chan_info_g ≡ s.chan_info) × (t.chan_info ≡ s.chan_info) × (t.client ≡ s.client)
    → t.chanchange ≡ true
    → (u : System) × Stops s u
unfolding main_step
joining-Stops s t r e closes (copied, info, client) set = by_case t.serving refl
  where
    by_case : (b : Bool) → t.serving ≡ b → (u : System) × Stops s u
    by_case false ended =
        let u = record t { main = stopped; server_running = false } in
        (
          u,
          record {
            reached = next r (moves t u joining e (rw (ended, main_step) refl));
            at = refl;
            copied = copied;
            same_info = info;
            same_client = client;
            set = set;
          },
        )
    by_case true serves =
        let t' = record t { serving = false; closecmd = false } in
        let u = record t' { main = stopped; server_running = false } in
        (
          u,
          record {
            reached = next (next r (server_closes t serves closes)) (moves t' u joining e refl);
            at = refl;
            copied = copied;
            same_info = info;
            same_client = client;
            set = set;
          },
        )

change-Stops : (s : System) → s.main ≡ watching → s.chanchange ≡ true → (u : System) × Stops s u
unfolding main_step
change-Stops s e set = by_case s.server_running refl
  where
    t : System
    t = record s { main = informed; chan_info_g = s.chan_info }

    first : Reach s t
    first = next here (moves s t watching e (rw (set, main_step) refl))

    by_case : (b : Bool) → s.server_running ≡ b → (u : System) × Stops s u
    by_case false none_runs =
        let u = record t { main = stopped } in
        (
          u,
          record {
            reached = next first (moves t u informed refl (rw (none_runs, main_step) refl));
            at = refl;
            copied = refl;
            same_info = refl;
            same_client = refl;
            set = set;
          },
        )
    by_case true runs =
        let u = record t { main = joining; closecmd = true } in
        joining-Stops s u (next first (moves t u informed refl (rw (runs, main_step) refl))) refl
          refl (refl, refl, refl) set

-- From `pthread_join` on to the top of the loop.
abbrev finished : System → ChannelInfo → System
finished u info = record u {
  main = watching;
  chanchange = false;
  chan_info = info;
  chan_info_g = info;
  memory = some u.chan_info_g;
  closecmd = false;
  serving = true;
  server_running = true;
}

module _ (s : System) (at_top : s.main ≡ watching) (set : s.chanchange ≡ true) where
  -- From every state in which the main thread is at the top of its loop and CHANCHANGE is set,
  -- steps of the main and the server's thread lead back there with CHANCHANGE cleared, the server
  -- running, and the data ring allocated for the channel information that the client's thread had
  -- told.
  pub change-completes :
      (t : System) × (Reach s t
        × (t.main ≡ watching)
        × (t.chanchange ≡ false)
        × (t.serving ≡ true)
        × (t.client ≡ s.client)
        × (t.chan_info_g ≡ s.chan_info)
        × (t.memory ≡ some s.chan_info))
  unfolding main_step
  change-completes =
      let (u, h) = change-Stops s at_top set in
      let u' = record u { main = deallocated; memory = none } in
      let u'' = record u' { main = allocated; memory = some u.chan_info_g } in
      let u''' = record u'' { main = cleared; chan_info_g = u.chan_info; chanchange = false } in
      (
        finished u u.chan_info,
        (
          next
              (next (next (next h.reached (moves u u' stopped h.at refl)) (main_moves u'))
                (main_moves u''))
              (main_moves u'''),
          refl,
          refl,
          refl,
          h.same_client,
          h.same_info,
          ap some h.copied,
        ),
      )

  -- From every such state in which the client's thread is not in check_data, the threads can also
  -- come to a state in which chan_info_g is any other channel information, the data ring is
  -- allocated for the old one, and CHANCHANGE is cleared.
  pub change-lost :
      (info : ChannelInfo)
      → s.client ≡ elsewhere
      → (t : System) × (Reach s t
          × (t.main ≡ watching)
          × (t.chanchange ≡ false)
          × (t.serving ≡ true)
          × (t.client ≡ elsewhere)
          × (t.chan_info_g ≡ info)
          × (t.memory ≡ some s.chan_info))
  unfolding main_step
  change-lost info idle =
      let (u, h) = change-Stops s at_top set in
      let u' = record u { main = deallocated; memory = none } in
      let u'' = record u' { main = allocated; memory = some u.chan_info_g } in
      let v = record u'' { client = checking u.chanchange } in
      let v' = record v { client = elsewhere; chanchange = true; chan_info = info } in
      let v'' = record v' { main = cleared; chan_info_g = info; chanchange = false } in
      (
        record (finished u info) { client = elsewhere },
        (
          next
              (next
                (next
                  (next (next (next h.reached (moves u u' stopped h.at refl)) (main_moves u'))
                    (client_reads u'' (h.same_client ∙ idle)))
                  (client_notifies v u.chanchange info refl))
                (main_moves v'))
              (main_moves v''),
          refl,
          refl,
          refl,
          refl,
          refl,
          ap some h.copied,
        ),
      )

-- The two calls of `data_ring_ops`.
module _ (m : Allocator) (pointer : ℕ → ℕ) (mem : ℕ → ℕ → List ℕ) (serves : Serves m pointer mem)
    (c : ChannelInfo) where
  abbrev pub Anew : Outcome DataRing → Type 0
  Anew (done s) = IsValid (sdr_pkt_size c) s × (contents s ≡ []) × (s.locked ≡ false)
  Anew fault = ⊥
  Anew failed = ⊥
  Anew blocked = ⊥

  abbrev replied : DataRing → Outcome Reply
  replied s' = done (pos 0, none, record s' { locked = false })

  allocated-Anew :
      (s : DataRing) (o : Outcome DataRing)
      → Allocates m pointer mem serves c s o
      → Anew ((o >>= replied) >>= λ r. done r.2)
  allocated-Anew s (done s') (v, empty, e) = (relock false v, empty, refl)
  allocated-Anew s fault h = h
  allocated-Anew s failed h = h
  allocated-Anew s blocked h = h

  -- RING_DEALLOC and RING_ALLOC of an allocated, unlocked data ring, where malloc serves, return
  -- and leave a valid, empty, unlocked ring with slots of the size of a packet of the new channels.
  pub reallocate-Anew : (s : DataRing) → s.live ≡ true → s.locked ≡ false → Anew (reallocate m c s)
  unfolding reallocate data_ring_ops switch dealloc
  reallocate-Anew s live free =
      let freed = record s {
        datar_start = 0;
        datar_end = 0;
        datar_cnt = 0;
        live = false;
        locked = true;
      } in
      rw (free, live, reallocate, data_ring_ops, switch, dealloc)
        (allocated-Anew freed (alloc m c freed) (alloc-Allocates m pointer mem serves c freed))
