-- ===== src/Tests/Tickets.antt =====
-- Examples: playtest tickets.
use robloxstudio_mcp.Shared.{◌≡◌, refl, none, some, List, [], ◌∷◌, map}
use robloxstudio_mcp.Tickets.{
  Value, nil, text, PlaytestTicket, entries, Settings, read_board, board_of, decoded_board,
  valid_tickets, publish, withdraw, live_tickets,
}
use robloxstudio_mcp.Tickets.Boards.{IsTicket, table_of, read_board-publish, live_tickets-withdraw}

abbrev ticket : PlaytestTicket
ticket = record {
  id = "t";
  instance_id = some "instance:a";
  group_id = none;
  place_id = 1;
  place_key = "p";
  data_model_name = "Edit";
  server_url = none;
  posted_at = 10;
  heartbeat_at = 10;
}

-- The one setting is the state; the JSON text of any board stands for one board.
abbrev one_setting : List PlaytestTicket → Settings Value
one_setting board = record {
  get_setting = λ w key. some w;
  set_setting = λ w key v. v;
  json_decode = λ raw. entries (map (λ t. some (table_of t)) board);
  json_encode = λ ts. some "[]";
}

abbrev refreshed : PlaytestTicket
refreshed = record ticket { heartbeat_at = 60 }

ticket_lem : IsTicket ticket
ticket_lem = record {
  named = refl;
  owned = refl;
  instance_filled = refl;
  group_filled = tt;
  url_filled = tt;
}

read_board-publish_example :
    read_board (one_setting (refreshed ∷ [])) (publish (one_setting (refreshed ∷ [])) 60 nil ticket)
    ≡ refreshed ∷ []
unfolding read_board board_of
read_board-publish_example =
    read_board-publish (one_setting (refreshed ∷ [])) (λ w v. refl) 60 nil ticket ticket_lem
      ("[]", refl, refl)

live_tickets-withdraw_example :
    live_tickets (one_setting []) 60 (withdraw (one_setting []) 60 (text "") "t") ≡ []
unfolding read_board board_of decoded_board valid_tickets
live_tickets-withdraw_example =
    live_tickets-withdraw (one_setting []) (λ w v. refl) 60 (text "") "t" ("[]", refl, refl)
