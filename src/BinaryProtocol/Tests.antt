-- ===== src/BinaryProtocol/Tests.antt =====
-- Runs of src/websocket/binary_protocol.cpp.
use origindb.Prelude.{Text, [], ascii}
use origindb.Document.{json_integer, json_null, json_string}
use origindb.Document.Sample.{Sample, leaf, object, entry, no_entry}
use origindb.Document.Sample.Texts.{encode}

-- A number, a null and a text.
abbrev sent : Sample
sent = object (
    entry (ascii "age") (leaf (json_integer 30)) (
      entry (ascii "gone") (leaf json_null)
        (entry (ascii "name") (leaf (json_string (ascii "Al"))) no_entry)))

abbrev sent_text : Text
unfolding encode
sent_text = encode sent []
