-- ===== src/Listener/Order.antt =====
-- The order in which a peer sees the commands of a client, and the client's queries are answered:
-- `ProcessRequests` of lmd/listener.go.
use lmd.Prelude.{
  is_nil, Bool, true, false, Option, some, List, [], ◌∷◌, ◌++◌, Bytes, equal, equal_iff,
  if◌then◌else◌, ◌≡◌, refl, ap, sym, ◌∙◌, arith, append_assoc, append-nil, Bool-cases, inl, inr,
}
use lmd.Prelude.Dict.{Dict, lookup, insert, lookup-insert}
use lmd.Runtime.{Go}
use lmd.BadRequest.{Failure}
use lmd.Text.{trim_space}
use lmd.Request.{Request}
use lmd.Listener.{
  or_nil, Reply, sent, unsent, rejected, Event, commands, query, refused, Handled, commands_of,
  add_command, send_commands, before, after_reply, process_from, process_requests,
}

module _ (go : Go) (id : Bytes) where
  -- what concerns a peer and the client: a command for the peer, a query, or an error
  pub data Item : Type 0 where
    command : Bytes → Item
    answer : Request go → Item
    failure : Failure → Item

  abbrev items : List Bytes → List Item
  items [] = []
  items (c ∷ cs) = command c ∷ items cs

  -- what the peer and the client see of the events
  unfoldable pub seen : List (Event go) → List Item
  unfolding lookup
  seen [] = []
  seen (commands batch ∷ es) = items (commands_of id batch) ++ seen es
  seen (query req ∷ es) = answer req ∷ seen es
  seen (refused f ∷ es) = failure f ∷ seen es

  -- the command as often as the peer is among the backends
  unfoldable pub copies : Bytes → Dict Bytes → List Bytes
  copies c [] = []
  copies c ((_, name) ∷ backends) =
      let rest = copies c backends in if equal name id then c ∷ rest else rest

  -- what is asked: one request after the other
  unfoldable pub asked : (Request go → Reply go) → List (Request go) → List Item
  unfolding copies
  asked respond [] = []
  asked respond (req ∷ reqs) =
      let rest = asked respond reqs in
      if is_nil req.command
      then elim (respond req) [
        | rejected f ↦ failure f ∷ []
        | unsent ↦ answer req ∷ []
        | sent ↦ answer req ∷ (if req.keep_alive then rest else [])
      ]
      else items (copies (trim_space req.command) req.backends_map) ++ rest

  items-append : (cs ds : List Bytes) → items (cs ++ ds) ≡ items cs ++ items ds
  items-append [] ds = refl
  items-append (c ∷ cs) ds = ap (λ xs. command c ∷ xs) (items-append cs ds)

  or_nil-if :
      (b : Bool) (cs : List Bytes) (x : Option (List Bytes))
      → or_nil (if b then some cs else x) ≡ (if b then cs else or_nil x)
  or_nil-if true cs x = refl
  or_nil-if false cs x = refl

  commands_of-insert :
      (name : Bytes) (cs : List Bytes) (pending : Dict (List Bytes))
      → commands_of id (insert name cs pending)
        ≡ (if equal name id then cs else commands_of id pending)
  commands_of-insert name cs pending =
      ap or_nil (lookup-insert name id cs pending)
      ∙ or_nil-if (equal name id) cs (lookup id pending)

  one_more :
      (b : Bool) (name c : Bytes) (pending : Dict (List Bytes)) (rest : List Bytes)
      → (b ≡ true → name ≡ id)
      → (if b then commands_of name pending ++ c ∷ [] else commands_of id pending) ++ rest
        ≡ commands_of id pending ++ (if b then c ∷ rest else rest)
  one_more true name c pending rest same =
      ap (λ n. (commands_of n pending ++ c ∷ []) ++ rest) (same refl)
      ∙ append_assoc (commands_of id pending) (c ∷ []) rest
  one_more false name c pending rest same = refl

  commands_of-add :
      (c : Bytes) (backends : Dict Bytes) (pending : Dict (List Bytes))
      → commands_of id (add_command c backends pending)
        ≡ commands_of id pending ++ copies c backends
  unfolding add_command copies
  commands_of-add c [] pending = sym (append-nil (commands_of id pending))
  commands_of-add c ((_, name) ∷ backends) pending =
      commands_of-add c backends (insert name (commands_of name pending ++ c ∷ []) pending)
      ∙ ap (λ cs. cs ++ copies c backends)
          (commands_of-insert name (commands_of name pending ++ c ∷ []) pending)
      ∙ one_more (equal name id) name c pending (copies c backends)
          (λ e. ground (arith, equal_iff name id, e))

  seen-append : (es fs : List (Event go)) → seen (es ++ fs) ≡ seen es ++ seen fs
  unfolding seen
  seen-append [] fs = refl
  seen-append (commands batch ∷ es) fs =
      ap (λ xs. items (commands_of id batch) ++ xs) (seen-append es fs)
      ∙ sym (append_assoc (items (commands_of id batch)) (seen es) (seen fs))
  seen-append (query req ∷ es) fs = ap (λ xs. answer req ∷ xs) (seen-append es fs)
  seen-append (refused f ∷ es) fs = ap (λ xs. failure f ∷ xs) (seen-append es fs)

  seen-send :
      (pending : Dict (List Bytes))
      → seen (send_commands go pending) ≡ items (commands_of id pending)
  unfolding seen lookup
  seen-send [] = refl
  seen-send (entry ∷ pending) = append-nil (items (commands_of id (entry ∷ pending)))

  module _ (respond : Request go → Reply go) where
    kept-seen :
        (b : Bool) (req : Request go) (rest : Handled go) (more : List Item)
        → seen rest.events ≡ more
        → seen
            (if b
              then before go (query req ∷ []) rest
              else record { events = query req ∷ []; keep_alive = false }).events
          ≡ answer req ∷ (if b then more else [])
    unfolding seen
    kept-seen true req rest more same = ap (λ xs. answer req ∷ xs) same
    kept-seen false req rest more same = refl

    reply-seen :
        (reply : Reply go) (req : Request go) (rest : Handled go) (more : List Item)
        → seen rest.events ≡ more
        → seen (after_reply go reply req rest).events ≡ elim reply [
          | rejected f ↦ failure f ∷ []
          | unsent ↦ answer req ∷ []
          | sent ↦ answer req ∷ (if req.keep_alive then more else [])
        ]
    unfolding seen
    reply-seen (rejected f) req rest more same = refl
    reply-seen unsent req rest more same = refl
    reply-seen sent req rest more same = kept-seen req.keep_alive req rest more same

    process_from-seen :
        (reqs : List (Request go)) (keep : Bool) (pending : Dict (List Bytes))
        → seen (process_from go respond reqs keep pending).events
          ≡ items (commands_of id pending) ++ asked respond reqs
    unfolding process_from asked
    process_from-seen [] keep pending =
        seen-send pending ∙ sym (append-nil (items (commands_of id pending)))
    process_from-seen (req ∷ reqs) keep pending = elim (Bool-cases (is_nil req.command)) [
      | inl is_query ↦
          let rest = process_from go respond reqs req.keep_alive [] in
          rw is_query (
            seen-append (send_commands go pending) (after_reply go (respond req) req rest).events
            ∙ ap (λ xs. xs ++ seen (after_reply go (respond req) req rest).events)
                (seen-send pending)
            ∙ ap (λ xs. items (commands_of id pending) ++ xs)
                (reply-seen (respond req) req rest (asked respond reqs)
                  (process_from-seen reqs req.keep_alive [])))
      | inr is_command ↦
          let c = trim_space req.command in
          let copied = copies c req.backends_map in
          rw is_command (
            process_from-seen reqs req.keep_alive (add_command c req.backends_map pending)
            ∙ ap (λ cs. items cs ++ asked respond reqs) (commands_of-add c req.backends_map pending)
            ∙ ap (λ xs. xs ++ asked respond reqs) (items-append (commands_of id pending) copied)
            ∙ append_assoc (items (commands_of id pending)) (items copied) (asked respond reqs))
    ]

    -- Of the commands that are sent to a peer, the answers and the errors, a peer and the client
    -- see what they would see if each request were handled when its turn comes: the commands for
    -- the peer in their order, each before the queries behind it, up to the first query that fails
    -- or is not to be kept alive.
    pub process_requests-seen :
        (reqs : List (Request go))
        → seen (process_requests go respond reqs).events ≡ asked respond reqs
    unfolding process_requests lookup
    process_requests-seen reqs = process_from-seen reqs false []
