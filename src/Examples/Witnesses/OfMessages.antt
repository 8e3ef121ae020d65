-- ===== src/Examples/Witnesses/OfMessages.antt =====
-- Numbers, tags and messages at concrete inputs.
use tiny_im.Prelude.{◌≡◌, some, codes, arith}
use tiny_im.Prelude.Int.{negsuc}
use tiny_im.Decimal.{to_string, stoi}
use tiny_im.Decimal.RoundTrip.{stoi-to_string}
use tiny_im.Message.{from_json}
use tiny_im.Message.Types.{text}
use tiny_im.Message.RoundTrip.{from_json-to_json}
use tiny_im.Examples.Codec.{codec, codec-laws, text_of, to_json-text_of}
use tiny_im.Examples.World.{message}

stoi-to_string_example : stoi (to_string (negsuc 2147483647)) ≡ some (negsuc 2147483647)
stoi-to_string_example = stoi-to_string (negsuc 2147483647) (omega arith)

from_json-to_json_example :
    from_json codec (text_of (message 111 222 text (codes "hi")))
    ≡ some (message 111 222 text (codes "hi"))
from_json-to_json_example =
    from_json-to_json codec codec-laws (message 111 222 text (codes "hi"))
      (text_of (message 111 222 text (codes "hi"))) (omega arith)
      (to_json-text_of (message 111 222 text (codes "hi")))
