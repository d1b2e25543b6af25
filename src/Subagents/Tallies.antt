-- ===== src/Subagents/Tallies.antt =====
-- How the registry of src/feather/core/subagents/registry.py and the mailbox of
-- src/feather/storage/agent_message_store.py count the children and the messages from them.
use feather_os.Prelude.{
  ℕ, suc, ◌+◌, ◌≤◌, String, ◌≡◌, refl, sym, ap, subst, ◌∙◌, Bool, true, false, not, some, List, [],
  ◌∷◌, map, if◌then◌else◌, Bool-cases, inl, inr, arith, str_eq, str_eq_iff, count, count-append,
  select, any, has_key, fetch, IsKeyed, Result, length,
}
use feather_os.Mailbox.{Message, Store, Outgoing}
use feather_os.Mailbox.Replies.Posting.{Verdict, refused, posted, sealed, is_refused, send_lem}
use feather_os.Subagents.Registry.{LiveSubagent, live_key}
use feather_os.Subagents.Reaper.{World, Moment, final_report, post_report}
use feather_os.Subagents.Calls.{note_mail, note_loss}

-- How often a child stands in a list.
abbrev pub tally : String → List LiveSubagent → ℕ
tally session_id l = count (has_key live_key session_id) l

-- The messages from a session.
abbrev pub letters_from : String → List Message → ℕ
letters_from session_id l = count (λ (m : Message). str_eq m.from_session_id session_id) l

count-any : {A : Type 0} (p : A → Bool) (xs : List A) → any p xs ≡ false → count p xs ≡ 0
count-any p [] h = refl
count-any p (x ∷ xs) h = ground (arith, count-any p xs)

pub tally-select :
    (k i : String) (l : List LiveSubagent)
    → tally k (select (λ x. not (has_key live_key i x)) l) ≡ (if str_eq i k then 0 else tally k l)
tally-select k i [] = ground arith
tally-select k i (x ∷ l) = ground (
  arith,
  tally-select k i l,
  str_eq_iff x.session_id i,
  str_eq_iff x.session_id k,
  str_eq_iff i k,
)

pub tally-live :
    (i : String) (l : List LiveSubagent) (x : LiveSubagent)
    → IsKeyed live_key l
    → fetch live_key i l ≡ some x
    → tally i l ≡ 1
tally-live i [] x k e = cc
tally-live i (y ∷ l) x k e = elim (Bool-cases (str_eq y.session_id i)) [
  | inl t ↦
      let same : y.session_id ≡ i = (str_eq_iff y.session_id i).0 t in
      rw t (
        ap suc (
          count-any (has_key live_key i) l
            (subst (λ j. any (has_key live_key j) l ≡ false) same k.0)))
  | inr f ↦ rw f (tally-live i l x k.1 (rw f at e))
]

letters_from-sealed :
    (k : String) (l : List Message) → letters_from k (map sealed l) ≡ letters_from k l
letters_from-sealed k [] = refl
letters_from-sealed k (m ∷ l) = ground (arith, letters_from-sealed k l)

-- Whether one more message came from `k`: one did, unless the mailbox refused it.
abbrev pub arrival : String → Outgoing → Bool → ℕ
arrival k o dropped = if dropped then 0 else if str_eq o.from_session_id k then 1 else 0

module _ (k : String) {o : Outgoing} {now message_id fresh : String} {s : Store} where
  pub Verdict-letters :
      {r : Result Message × Store}
      → Verdict o now message_id fresh s r
      → letters_from k r.1.messages
        ≡ letters_from k s.messages + arrival k o (is_refused o message_id s)
  Verdict-letters (refused e h) = rw h (omega arith)
  Verdict-letters (posted m last rows v free f ends same) =
      let from : last.from_session_id ≡ o.from_session_id = elim ends [
        | inl e ↦ ap (λ (x : Message). x.from_session_id) e ∙ f.from_session
        | inr (e, _) ↦ ap (λ (x : Message). x.from_session_id) e ∙ f.from_session
      ] in
      let old =
        sym (letters_from-sealed k rows)
        ∙ ap (letters_from k) same
        ∙ letters_from-sealed k s.messages in
      ground (
        arith,
        old,
        count-append (λ (x : Message). str_eq x.from_session_id k) rows (last ∷ []),
        ap (λ i. str_eq i k) from,
        v.body,
        v.sender,
        v.recipient,
        free,
      )

  pub Verdict-mailed :
      {r : Result Message × Store} (mailed : List Message)
      → Verdict o now message_id fresh s r
      → letters_from k (note_mail r.0 mailed)
        ≡ letters_from k mailed + arrival k o (is_refused o message_id s)
  Verdict-mailed mailed (refused e h) = rw h (omega arith)
  Verdict-mailed mailed (posted m last rows v free f ends same) =
      ground (arith, ap (λ i. str_eq i k) f.from_session, v.body, v.sender, v.recipient, free)

-- A report that is posted reaches the mailbox, unless it is lost.
pub post_report-letters :
    (k : String) (l : LiveSubagent) (body : String) (m : Moment) (w : World)
    (lost : List LiveSubagent)
    → letters_from k (post_report l body m w).1.mailbox.messages
        + tally k (note_loss (is_refused (final_report l body) m.message_id w.mailbox) l lost)
      ≡ letters_from k w.mailbox.messages + tally k lost + (if has_key live_key k l then 1 else 0)
post_report-letters k l body m w lost =
    let o = final_report l body in
    let sent = Verdict-letters k (send_lem o m.sent_at m.message_id m.fresh w.mailbox) in
    elim (Bool-cases (is_refused o m.message_id w.mailbox)) [
      | inl t ↦ rw t (ground (arith, sent, t))
      | inr f ↦ rw f (ground (arith, sent, f))
    ]

pub length-note_loss :
    (dropped : Bool) (l : LiveSubagent) (lost : List LiveSubagent)
    → 0 + length lost ≤ length (note_loss dropped l lost)
length-note_loss true l lost = omega arith
length-note_loss false l lost = omega arith
