-- ===== src/Tests/Requests.antt =====
-- Requests.
use network_learn.Base.{◌≡◌, refl, ◌⊎◌, false, [], ◌∷◌, some, arith, Bytes, codes}
use network_learn.Util.Refer.{refer_til}
use network_learn.Util.Nocase.{nocase_equal}
use network_learn.Util.HeaderMap.{find, emplace}
use network_learn.Http.Url.{uri_unescape}
use network_learn.Http.Request.{
  HttpRequest, new_request, ok, refused, parse, is_space, is_uri_end, is_argument_end, is_return,
  is_colon,
}
use network_learn.Http.Request.Message.{Message, render, IsLine, IsWellFormed}
use network_learn.Http.Request.RoundTrip.{ReadsBack, parse-render}
use network_learn.Http.Request.Safety.{Accepted, parse_safe}
use network_learn.Tests.Sound.{Clear-is_clear}

abbrev pub message : Message
message = record {
  method = codes "GET";
  path = codes "/a%20b";
  uri = codes "/a b";
  arguments = codes "x=1" ∷ codes "y=2" ∷ [];
  version = codes "HTTP/1.1";
  lines = (codes "Host", codes "me") ∷ (codes "connection", codes "CLOSE") ∷ [];
  content = codes "body";
}

abbrev request : HttpRequest
request = record new_request { raw_data = render message }

host-IsLine : IsLine (codes "Host", codes "me")
host-IsLine = record {
  key_clear = Clear-is_clear is_colon (codes "Host") refl;
  key_start = refl;
  value_clear = Clear-is_clear is_return (codes "me") refl;
  value_start = refl;
}

connection-IsLine : IsLine (codes "connection", codes "CLOSE")
connection-IsLine = record {
  key_clear = Clear-is_clear is_colon (codes "connection") refl;
  key_start = refl;
  value_clear = Clear-is_clear is_return (codes "CLOSE") refl;
  value_start = refl;
}

message_path_decodes : (after : Bytes) → uri_unescape after message.path ≡ some message.uri
unfolding uri_unescape
message_path_decodes after = refl

pub message-IsWellFormed : IsWellFormed message
message-IsWellFormed = record {
  method_clear = Clear-is_clear is_space message.method refl;
  method_size = omega arith;
  path_clear = Clear-is_clear is_uri_end message.path refl;
  decodes = λ after h. message_path_decodes after;
  arguments_clear = (
    Clear-is_clear is_argument_end (codes "x=1") refl,
    (Clear-is_clear is_argument_end (codes "y=2") refl, tt),
  );
  version_clear = Clear-is_clear is_return message.version refl;
  version_size = omega arith;
  lines_fit = (host-IsLine, (connection-IsLine, tt));
}

parse-render_example : ((parse request).status ≡ ok) × ReadsBack message (parse request).request
parse-render_example = parse-render message request message-IsWellFormed refl refl refl

parse_safe_example : ((parse request).status ≡ refused) ⊎ Accepted request (parse request)
parse_safe_example = parse_safe request tt

closes : (parse request).request.is_keep_alive ≡ false
unfolding parse refer_til uri_unescape find emplace nocase_equal
closes = refl
