-- ===== src/Stream/Responses/Projection.antt =====
-- What the events of a response say: the items announced, the text sent piece by piece, and at the end.
use keygrid.Prelude.{ℕ, List, [], ◌∷◌}
use keygrid.Failure.Message.{Runes}
use keygrid.Stream.Responses.{
  Item, Event, output_item_added, output_text_delta, output_text_done, completed,
}

-- The index of an item that is announced.
abbrev pub index_added : Event → List ℕ
index_added (output_item_added i item) = i ∷ []
index_added e = []

-- The piece of the message's text that is sent.
abbrev pub text_sent : Event → Runes
text_sent (output_text_delta i t) = t
text_sent e = []

-- The whole text of the message, at its end.
abbrev pub text_done : Event → Runes
text_done (output_text_done i t) = t
text_done e = []

-- The output of the response that is completed.
abbrev pub output_sent : Event → List (List Item)
output_sent (completed incomplete out input output) = out ∷ []
output_sent e = []
