-- ===== src/Nostr/Kinds.antt =====
-- The event kinds that the relay names (constants of its nostr library).
use croissant.Base.{ℕ}

abbrev pub profile_metadata : ℕ
profile_metadata = 0

abbrev pub gift_wrap : ℕ
gift_wrap = 1059

abbrev pub put_user : ℕ
put_user = 9000

abbrev pub remove_user : ℕ
remove_user = 9001

abbrev pub edit_metadata : ℕ
edit_metadata = 9002

abbrev pub delete_event : ℕ
delete_event = 9005

abbrev pub create_group : ℕ
create_group = 9007

abbrev pub delete_group : ℕ
delete_group = 9008

abbrev pub create_invite : ℕ
create_invite = 9009

abbrev pub join_request : ℕ
join_request = 9021

abbrev pub leave_request : ℕ
leave_request = 9022

abbrev pub group_metadata : ℕ
group_metadata = 39000
