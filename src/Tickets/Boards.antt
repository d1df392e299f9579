-- ===== src/Tickets/Boards.antt =====
-- The board of studio-plugin/src/modules/PlaytestTickets.ts after a ticket comes or goes.
use robloxstudio_mcp.Shared.{
  ℕ, ◌≡◌, refl, String, Bool, true, false, Option, none, some, List, [], ◌∷◌, ◌++◌, ◌||◌, filter,
  map, All, is_some, str_eq, or_else, if◌then◌else◌, arith, ap, ◌∙◌, subst, Bool-cases,
  Option-cases, inl, inr,
}
use robloxstudio_mcp.Tickets.{
  Value, nil, other, text, number, number_of, string_of, ◌>>=◌, PlaytestTicket, TicketTable,
  Decoded, threw, no_table, entries, Settings, board_key, optional_string, decode_ticket, is_fresh,
  valid_tickets, decoded_board, board_of, read_board, write_board, others, publish, leaves,
  withdraw, live_tickets,
}

-- An optional string that is there is not empty.
abbrev pub Filled : Option String → Type 0
Filled none = Unit
Filled (some s) = str_eq s "" ≡ false

pub record IsTicket (t : PlaytestTicket) : Type 0 where
  pub named : str_eq t.id "" ≡ false
  pub owned : (is_some t.instance_id || is_some t.group_id) ≡ true
  pub instance_filled : Filled t.instance_id
  pub group_filled : Filled t.group_id
  pub url_filled : Filled t.server_url

abbrev pub value_of : Option String → Value
value_of none = nil
value_of (some s) = text s

-- The table that a ticket is.
abbrev pub table_of : PlaytestTicket → TicketTable
table_of t = record {
  id = text t.id;
  instance_id = value_of t.instance_id;
  group_id = value_of t.group_id;
  place_id = number t.place_id;
  place_key = text t.place_key;
  data_model_name = text t.data_model_name;
  server_url = value_of t.server_url;
  posted_at = number t.posted_at;
  heartbeat_at = number t.heartbeat_at;
}

-- A setting holds what was written.
abbrev pub Keeps : {W : Type 0} → Settings W → Type 0
Keeps {W} s = (w : W) (v : Value) → s.get_setting (s.set_setting w board_key v) board_key ≡ some v

-- JSON gives the tables of a board back that it was made of.
abbrev pub Encodes : {W : Type 0} → Settings W → List PlaytestTicket → Type 0
Encodes s ts =
    (raw : String) × (s.json_encode ts ≡ some raw)
    × (s.json_decode raw ≡ entries (map (λ t. some (table_of t)) ts))

optional_string-value_of : (o : Option String) → Filled o → optional_string (value_of o) ≡ o
unfolding optional_string
optional_string-value_of none f = refl
optional_string-value_of (some s) f = rw (f)

Filled-optional_string : (v : Value) → Filled (optional_string v)
unfolding optional_string
Filled-optional_string nil = tt
Filled-optional_string other = tt
Filled-optional_string (number n) = tt
Filled-optional_string (text s) = elim (Bool-cases (str_eq s "")) [
  | inl e ↦ rw (e) tt
  | inr e ↦ rw (e) e
]

>>=-some :
    {A B : Type 0} (m : Option A) (f : A → Option B) {b : B}
    → (m >>= f) ≡ some b
    → (a : A) × (m ≡ some a) × (f a ≡ some b)
>>=-some none f h = cc
>>=-some (some a) f h = (a, refl, h)

some_inj : {A : Type 0} (a b : A) → some a ≡ some b → a ≡ b
some_inj a b h = ap (λ o. or_else o a) h

guarded :
    (b : Bool) (u t : PlaytestTicket) → (if b then some u else none) ≡ some t → (b ≡ true) × (u ≡ t)
guarded true u t h = (refl, some_inj u t h)
guarded false u t h = cc

decode_ticket-table_of : (t : PlaytestTicket) → IsTicket t → decode_ticket (table_of t) ≡ some t
unfolding decode_ticket
decode_ticket-table_of t v = rw (
  optional_string-value_of (some t.id) v.named,
  optional_string-value_of t.instance_id v.instance_filled,
  optional_string-value_of t.group_id v.group_filled,
  optional_string-value_of t.server_url v.url_filled,
  v.owned,
)

valid_tickets-tables :
    (ts : List PlaytestTicket)
    → All IsTicket ts
    → valid_tickets (map (λ t. some (table_of t)) ts) ≡ ts
unfolding valid_tickets
valid_tickets-tables [] a = refl
valid_tickets-tables (t ∷ ts) a =
    rw (decode_ticket-table_of t a.0, valid_tickets) (ap (λ k. t ∷ k) (valid_tickets-tables ts a.1))

decode_ticket-IsTicket :
    (d : TicketTable) (t : PlaytestTicket) → decode_ticket d ≡ some t → IsTicket t
unfolding decode_ticket
decode_ticket-IsTicket d t e =
    let (id, named, e1) = >>=-some (optional_string d.id) _ e in
    let (place_id, _, e2) = >>=-some (number_of d.place_id) _ e1 in
    let (place_key, _, e3) = >>=-some (string_of d.place_key) _ e2 in
    let (name, _, e4) = >>=-some (string_of d.data_model_name) _ e3 in
    let (posted, _, e5) = >>=-some (number_of d.posted_at) _ e4 in
    let (beat, _, e6) = >>=-some (number_of d.heartbeat_at) _ e5 in
    let (owned, same) =
      guarded (is_some (optional_string d.instance_id) || is_some (optional_string d.group_id)) _ t
        e6 in
    subst IsTicket same (record {
      named = subst Filled named (Filled-optional_string d.id);
      owned = owned;
      instance_filled = Filled-optional_string d.instance_id;
      group_filled = Filled-optional_string d.group_id;
      url_filled = Filled-optional_string d.server_url;
    })

valid_tickets-IsTicket : (es : List (Option TicketTable)) → All IsTicket (valid_tickets es)
unfolding valid_tickets
valid_tickets-IsTicket [] = tt
valid_tickets-IsTicket (none ∷ es) = valid_tickets-IsTicket es
valid_tickets-IsTicket (some d ∷ es) = elim (Option-cases (decode_ticket d)) [
  | inl bad ↦ rw (bad, valid_tickets) (valid_tickets-IsTicket es)
  | inr (t, good) ↦
      rw (good, valid_tickets) (decode_ticket-IsTicket d t good, valid_tickets-IsTicket es)
]

filter-All :
    (p : PlaytestTicket → Bool) (ts : List PlaytestTicket)
    → All IsTicket ts
    → All IsTicket (filter p ts)
filter-All p [] a = tt
filter-All p (t ∷ ts) a = elim (Bool-cases (p t)) [
  | inl e ↦ rw (e) (a.0, filter-All p ts a.1)
  | inr e ↦ rw (e) (filter-All p ts a.1)
]

append-All :
    (ts us : List PlaytestTicket) → All IsTicket ts → All IsTicket us → All IsTicket (ts ++ us)
append-All [] us a b = b
append-All (t ∷ ts) us a b = (a.0, append-All ts us a.1 b)

decoded_board-IsTicket : (d : Decoded) → All IsTicket (decoded_board d)
unfolding decoded_board
decoded_board-IsTicket threw = tt
decoded_board-IsTicket no_table = tt
decoded_board-IsTicket (entries es) = valid_tickets-IsTicket es

board_of-IsTicket : {W : Type 0} (s : Settings W) (o : Option Value) → All IsTicket (board_of s o)
unfolding board_of
board_of-IsTicket s none = tt
board_of-IsTicket s (some nil) = tt
board_of-IsTicket s (some other) = tt
board_of-IsTicket s (some (number n)) = tt
board_of-IsTicket s (some (text raw)) = decoded_board-IsTicket (s.json_decode raw)

all_stay :
    (now : ℕ) (id : String) (ts : List PlaytestTicket)
    → leaves now id ts ≡ false
    → filter (is_fresh now) ts ≡ filter (others now id) ts
unfolding leaves
all_stay now id [] h = refl
all_stay now id (t ∷ ts) h =
    let fresh : is_fresh now t ≡ true = ground (arith, h) in
    let other_id : str_eq t.id id ≡ false = ground (arith, h) in
    rw (fresh, other_id) (ap (λ us. t ∷ us) (all_stay now id ts (ground (arith, h))))

module _ {W : Type 0} (s : Settings W) (keeps : Keeps s) where
  read_board-IsTicket : (w : W) → All IsTicket (read_board s w)
  unfolding read_board
  read_board-IsTicket w = board_of-IsTicket s (s.get_setting w board_key)

  read_board-write_board :
      (w : W) (ts : List PlaytestTicket)
      → Encodes s ts
      → All IsTicket ts
      → read_board s (write_board s w ts) ≡ ts
  unfolding read_board write_board board_of decoded_board
  read_board-write_board w [] encodes a = rw (keeps w nil, board_of)
  read_board-write_board w (t ∷ ts) encodes a =
      let (raw, encoded, decoded) = encodes in
      let stored : write_board s w (t ∷ ts) ≡ s.set_setting w board_key (text raw) =
        rw (encoded, write_board) in
      ap (read_board s) stored
      ∙ ap (board_of s) (keeps w (text raw))
      ∙ ap decoded_board decoded
      ∙ valid_tickets-tables (t ∷ ts) a

  -- Where settings hold what is written and JSON gives the tables of the new board back, a ticket
  -- that is published, named, with an instance or a group and no empty optional text, is read back
  -- at the end of the board with the current time, after the tickets of other names that are
  -- fresh, in their order.
  pub read_board-publish :
      (now : ℕ) (w : W) (ticket : PlaytestTicket)
      → IsTicket ticket
      → Encodes s (
          filter (others now ticket.id) (read_board s w)
          ++ record ticket { heartbeat_at = now } ∷ [])
      → read_board s (publish s now w ticket)
        ≡ filter (others now ticket.id) (read_board s w)
          ++ record ticket { heartbeat_at = now } ∷ []
  unfolding publish
  read_board-publish now w ticket v encodes = read_board-write_board w _ encodes (
      append-All (filter (others now ticket.id) (read_board s w)) _
        (filter-All (others now ticket.id) (read_board s w) (read_board-IsTicket w))
        (
          record {
            named = v.named;
            owned = v.owned;
            instance_filled = v.instance_filled;
            group_filled = v.group_filled;
            url_filled = v.url_filled;
          },
          tt,
        ))

  -- Filtering keeps what passes already.
  fresh_others :
      (now : ℕ) (id : String) (ts : List PlaytestTicket)
      → filter (is_fresh now) (filter (others now id) ts) ≡ filter (others now id) ts
  fresh_others now id [] = refl
  fresh_others now id (t ∷ ts) = elim (Bool-cases (others now id t)) [
    | inr gone ↦ rw (gone) (fresh_others now id ts)
    | inl there ↦
        let fresh : is_fresh now t ≡ true = ground (arith, there) in
        rw (there, fresh) (ap (λ us. t ∷ us) (fresh_others now id ts))
  ]

  -- Where settings hold what is written and JSON gives the tables of the remaining board back, the
  -- live tickets after one is withdrawn are the fresh ones of other names, in their order.
  pub live_tickets-withdraw :
      (now : ℕ) (w : W) (id : String)
      → Encodes s (filter (others now id) (read_board s w))
      → live_tickets s now (withdraw s now w id) ≡ filter (others now id) (read_board s w)
  unfolding live_tickets withdraw
  live_tickets-withdraw now w id encodes = elim (Bool-cases (leaves now id (read_board s w))) [
    | inl changed ↦
        rw
          (
            changed,
            read_board-write_board w (filter (others now id) (read_board s w)) encodes
                (filter-All (others now id) (read_board s w) (read_board-IsTicket w)),
          )
          (fresh_others now id (read_board s w))
    | inr kept ↦ rw (kept) (all_stay now id (read_board s w) kept)
  ]
