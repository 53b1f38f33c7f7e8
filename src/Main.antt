-- ===== src/Main.antt =====
-- src/main.c: the main thread, and how it changes the channels under the client's and the server's
-- threads, as steps of the three threads on what they share; and what `main` does before its loop.
pub mod Order
pub mod Change
pub mod Number
pub mod Start
mod Tests
use sdrproxy.Prelude.{
  ℕ, ◌+◌, ◌-◌, ◌%◌, min, ◌≡◌, Bool, true, false, ◌&&◌, Option, none, some, List, [], ◌∷◌, get_elem?,
  ltb, leb, if◌then◌else◌, ℤ, pos, negsuc, sub_ℕ, ltb_ℤ,
}
use sdrproxy.Buffer.{ring_alloc, ring_dealloc}
use sdrproxy.Util.{ChannelInfo}
use sdrproxy.Databfr.{DataRing, Outcome, done, fault, failed, blocked, ◌>>=◌}
use sdrproxy.Databfr.Ops.{Allocator, Reply, data_ring_ops}
use sdrproxy.Server.{unread}
use sdrproxy.Channels.{skip_space, scan_number}

-- Where the main thread stands in its loop: at its top; with the information of the client copied;
-- in `pthread_join`; before RING_DEALLOC; before RING_ALLOC; before the second copy; and before the
-- start of the server's thread.
pub data MainPoint : Type 0 where
  watching informed joining stopped deallocated allocated cleared : MainPoint

-- Whether the client's thread is in `check_data`, and then what it has read of CHANCHANGE.
pub data ClientPoint : Type 0 where
  elsewhere : ClientPoint
  checking : Bool → ClientPoint

-- What the threads share: CHANCHANGE and `chan_info` of `struct clientcomm`, SRV_CLOSECMD of `struct
-- servercomm`, `chan_info_g`, and the channel information for which the memory of the data ring was
-- allocated, if it is. `server_running` is the variable of `main`; `serving` says whether the thread
-- of the server is there.
pub record System : Type 0 where
  pub main : MainPoint
  pub client : ClientPoint
  pub chanchange : Bool
  pub chan_info : ChannelInfo
  pub closecmd : Bool
  pub chan_info_g : ChannelInfo
  pub memory : Option ChannelInfo
  pub server_running : Bool
  pub serving : Bool

-- What stands before the loop.
abbrev pub start : ChannelInfo → System
start zeros = record {
  main = watching;
  client = elsewhere;
  chanchange = false;
  chan_info = zeros;
  closecmd = false;
  chan_info_g = zeros;
  memory = some zeros;
  server_running = false;
  serving = false;
}

-- The loop of `main`, up to the next point.
unfoldable pub main_step : MainPoint → System → System
main_step watching s =
    if s.chanchange then record s { main = informed; chan_info_g = s.chan_info } else s
main_step informed s =
    if s.server_running
    then record s { main = joining; closecmd = true }
    else record s { main = stopped }
main_step joining s = if s.serving then s else record s { main = stopped; server_running = false }
main_step stopped s = record s { main = deallocated; memory = none }
main_step deallocated s = record s { main = allocated; memory = some s.chan_info_g }
main_step allocated s = record s { main = cleared; chan_info_g = s.chan_info; chanchange = false }
main_step cleared s = record s {
  main = watching;
  closecmd = false;
  serving = true;
  server_running = true;
}

-- What the threads do to what they share. The client's thread reads CHANCHANGE, and then stores
-- packets if it was not set; it ends with new channel information or without. The server's thread
-- ends when SRV_CLOSECMD is set.
pub data Step : System → System → Type 0 where
  main_moves : (s : System) → Step s (main_step s.main s)
  client_reads :
      (s : System) → s.client ≡ elsewhere → Step s (record s { client = checking s.chanchange })
  client_notifies :
      (s : System) (inhibit_adc : Bool) (new : ChannelInfo)
      → s.client ≡ checking inhibit_adc
      → Step s (record s { client = elsewhere; chanchange = true; chan_info = new })
  client_ends :
      (s : System) (inhibit_adc : Bool)
      → s.client ≡ checking inhibit_adc
      → Step s (record s { client = elsewhere })
  server_closes :
      (s : System)
      → s.serving ≡ true
      → s.closecmd ≡ true
      → Step s (record s { serving = false; closecmd = false })

pub data Reach (s : System) : System → Type 0 where
  here : Reach s s
  next : {t u : System} → Reach s t → Step t u → Reach s u

-- What `main` calls when the server's thread has ended.
unfoldable pub reallocate : Allocator → ChannelInfo → DataRing → Outcome DataRing
reallocate m c data_ring = do
  r ← data_ring_ops m c unread [] (pos 0) ring_dealloc data_ring
  r' ← data_ring_ops m c unread [] (pos 0) ring_alloc r.2
  done r'.2

-- A number that does not fit a `long` of 32 bits is read as the nearest that does.
unfoldable pub clamped : ℤ → ℤ
clamped (pos n) = pos (min n 2147483647)
clamped (negsuc n) = negsuc (min n 2147483647)

-- A `char` that `%hhd` stores: the low byte of the number.
unfoldable pub signed_char : ℤ → ℤ
signed_char (pos n) = if ltb (n % 256) 128 then pos (n % 256) else sub_ℕ (n % 256) 256
signed_char (negsuc n) = if ltb (n % 256) 128 then negsuc (n % 256) else pos (255 - n % 256)

-- The third argument of the program, if there is one; `none` is the return of `main`. Of an argument
-- with no more than spaces `sscanf` gives EOF, which passes, with the zero that was there.
unfoldable pub client_no_of : Option (List ℕ) → Option ℤ
client_no_of none = some (negsuc 0)
client_no_of (some argument) = elim (skip_space argument) [
  | [] ↦ some (pos 0)
  | b ∷ bytes ↦ elim (scan_number (b ∷ bytes)) [
    | none ↦ none
    | some (value, rest) ↦
        let client_no = signed_char (clamped value) in
        if ltb_ℤ client_no (pos 0)
        then none
        else (if ltb_ℤ (pos 9) client_no then none else some client_no)
  ]
]

-- What `main` comes to before its loop: it returns, or starts the client's thread with a host, a port
-- and a number, and with the data ring.
pub data Startup : Type 0 where
  returns : ℕ → Startup
  launches : List ℕ → List ℕ → ℤ → DataRing → Startup

-- `main` before its loop, with `argv`; `opened` is whether `fopen` opens the log. `chan_info_g` is all
-- zeros then.
unfoldable pub main_start :
    Allocator → Bool → ChannelInfo → List (List ℕ) → DataRing → Outcome Startup
main_start m opened zeros (name ∷ host ∷ port ∷ rest) data_ring =
    if opened
    then (data_ring_ops m zeros unread [] (pos 0) ring_alloc data_ring >>= λ r.
        elim (client_no_of (get_elem? rest 0)) [
          | none ↦ done (returns 1)
          | some client_no ↦ done (launches host port client_no r.2)
        ])
    else failed
main_start m opened zeros (name ∷ host ∷ []) data_ring = done (returns 1)
main_start m opened zeros (name ∷ []) data_ring = done (returns 1)
main_start m opened zeros [] data_ring = done (returns 1)
