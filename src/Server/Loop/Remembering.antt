-- ===== src/Server/Loop/Remembering.antt =====
-- The record of a new client in the history of src/server.c, made or set back.
use sdrproxy.Prelude.{
  ℕ, zero, suc, ◌≤◌, ◌<◌, ◌≡◌, ◌∙◌, refl, ap, arith, Bool-cases, Option-cases, inl, inr, Option,
  none, some, List, [], ◌∷◌, length, take, get_elem?, get_elem?-some, get_elem?-length,
  get_elem?-set_self, length-set, set, ℤ, pos,
}
use sdrproxy.Databfr.{Outcome, done, fault, failed, blocked}
use sdrproxy.History.{ConnHistData, is_record_of, find, one_on, add, clhistory_lookup}
use sdrproxy.History.Laws.{add-Added}
use sdrproxy.Server.Loop.{set_back, client_record, touch}

one_on-some : (o : Option ℕ) (at : ℕ) → one_on o ≡ some at → (i : ℕ) × (o ≡ some i) × (at ≡ suc i)
one_on-some none at e = cc
one_on-some (some i) at e = (i, refl, cc)

module _ (ip : List ℕ) (port : ℕ) where
  -- What is found is there.
  find-length : (hist : List ConnHistData) (at : ℕ) → find ip port hist ≡ some at → at < length hist
  unfolding find
  find-length [] at e = cc
  find-length (cur ∷ rest) at e = elim (Bool-cases (is_record_of ip port cur)) [
    | inl same ↦
        let first : some 0 ≡ some at = rw same at e in let zero_at : 0 ≡ at = cc in omega arith
    | inr other ↦
        let (i, there, later) = one_on-some (find ip port rest) at (rw other at e) in
        let h = find-length rest i there in omega arith
  ]

  -- A record may be changed where it stands, but for its client.
  find-set :
      (hist : List ConnHistData) (at : ℕ) (h h' : ConnHistData)
      → get_elem? hist at ≡ some h
      → h'.ip ≡ h.ip
      → h'.server_port ≡ h.server_port
      → find ip port (set hist at h') ≡ find ip port hist
  unfolding find is_record_of
  find-set [] at h h' e same_ip same_port = refl
  find-set (cur ∷ rest) zero h h' e same_ip same_port =
      let same : cur ≡ h = cc in rw (same_ip, same_port, same) refl
  find-set (cur ∷ rest) (suc at) h h' e same_ip same_port =
      rw (find-set rest at h h' e same_ip same_port) refl

  -- The time after which a new connection of the client is sent packets.
  abbrev pub due : List ConnHistData → ℤ
  due hist = elim (find ip port hist) [
    | none ↦ pos 0
    | some at ↦ elim (get_elem? hist at) [ none ↦ pos 0 | some h ↦ set_back h.last_packet_time ]
  ]

  -- The client's record is found, it says from when on packets are due, and no record is lost.
  pub record Remembers (hist : List ConnHistData) (r : ℕ × List ConnHistData) : Type 0 where
    pub points : find ip port r.1 ≡ some r.0
    pub longer : length hist ≤ length r.1
    pub is_due : (h : ConnHistData) × (get_elem? r.1 r.0 ≡ some h) × (h.last_packet_time ≡ due hist)

  abbrev pub Recorded : List ConnHistData → Outcome (ℕ × List ConnHistData) → Type 0
  Recorded hist (done r) = Remembers hist r
  Recorded hist fault = ⊥
  Recorded hist failed = ⊥
  Recorded hist blocked = ⊥

  taken_length : {A : Type 0} (xs ys : List A) → take (length xs) ys ≡ xs → length xs ≤ length ys
  taken_length [] ys e = omega arith
  taken_length (x ∷ xs) [] e = cc
  taken_length (x ∷ xs) (y ∷ ys) e = let h = taken_length xs ys (ap tail e) in omega arith
    where
      tail : {A : Type 0} → List A → List A
      tail [] = []
      tail (x ∷ xs) = xs

  pub client_record-Recorded :
      (unset : ℤ) (hist : List ConnHistData) → Recorded hist (client_record unset ip port hist)
  unfolding client_record clhistory_lookup
  client_record-Recorded unset hist = elim (Option-cases (find ip port hist)) [
    | inl absent ↦
        let r = add unset ip port hist in
        let added = add-Added ip port unset hist in
        rw (absent, client_record)
          (record {
            points = added.points;
            longer = taken_length hist r.1 added.stay;
            is_due = (_, added.new absent, rw (absent, due) refl);
          })
    | inr (at, there) ↦
        let placed = find-length hist at there in
        let (h, held) = get_elem?-some hist at placed in
        let h' = record h { last_packet_time = set_back h.last_packet_time } in
        rw (there, held, client_record)
          (record {
            points = find-set hist at h h' held refl refl ∙ there;
            longer = omega (arith, length-set hist at h');
            is_due = (h', get_elem?-set_self hist at h' placed, rw (there, held, due) refl);
          })
  ]

  -- `last_update` changes nothing of this.
  pub touch-Remembers :
      (now : ℤ) (hist : List ConnHistData) (r : ℕ × List ConnHistData)
      → Remembers hist r
      → Remembers hist (r.0, touch now r.0 r.1)
        × ((h : ConnHistData) × (get_elem? (touch now r.0 r.1) r.0 ≡ some h)
            × (h.last_update ≡ now))
  unfolding touch
  touch-Remembers now hist r known =
      let (h, held, is_due) = known.is_due in
      let h' = record h { last_update = now } in
      let placed = get_elem?-length r.1 r.0 h held in
      rw (held, touch)
        (
          record {
            points = find-set r.1 r.0 h h' held refl refl ∙ known.points;
            longer = omega (arith, length-set r.1 r.0 h', known.longer);
            is_due = (h', get_elem?-set_self r.1 r.0 h' placed, is_due);
          },
          (h', get_elem?-set_self r.1 r.0 h' placed, refl),
        )
