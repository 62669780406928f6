-- ===== src/Streams/Conformance.antt =====
-- What exchange/binance_usdm/public_streams.py promises of the events that its parsers return.
use binance_algo.Base.{
  ap, ◌&&◌, ◌∙◌, is_some, String, Option, none, some, ◌≡◌, refl, arith, ok, Bool-cases,
  Option-cases, inl, inr,
}
use binance_algo.Streams.Json.{
  Returns-at, is_text_iff, Returns-map, Json, Members, Returns, Returns-bind, get, text, ℤ, pos,
}
use binance_algo.Streams.Parsers.{
  parse_stream, parse_document, parse_book_ticker, parse_aggregate_trade, parse_mark_price,
  parse_kline, parse_event, parse_payload, parse_combined_message, Receipt, common_of, before_at,
}
use binance_algo.Streams.Schemas.{Conforms, stream_schema, whole, written}
use binance_algo.Streams.Fields.{
  Library, Common, CanonicalStreamEvent, integer_at, string_at, column_of,
}

module _ (lib : Library) where
  -- The row has the columns of its schema, and the fields of the event are those of the message.
  pub record IsFrom (common : Common) (name : String) (payload : Members)
      (e : CanonicalStreamEvent lib.Float) : Type 0 where
    pub conforms : Conforms e.row (stream_schema e.event_type)
    pub from_stream : e.stream_name ≡ name
    pub same_id : e.event_id ≡ some (written common.event_id)
    pub same_symbol : (s : String) × (e.symbol ≡ some (written s)) × (string_at payload "s" ≡ ok s)
    pub same_time : (n : ℤ) × (e.event_time_ms ≡ some (whole n)) × (integer_at payload "E" ≡ ok n)
    pub same_arrival : e.received_time_ns ≡ some (whole (pos common.received_time_ns))

  module _ (name : String) (payload : Members) (common : Common) where
    abbrev From : CanonicalStreamEvent lib.Float → Type 0
    From = IsFrom common name payload

    is_from :
        (e : CanonicalStreamEvent lib.Float)
        → Conforms e.row (stream_schema e.event_type)
        → ((s : String) × (e.symbol ≡ some (written s)) × (string_at payload "s" ≡ ok s))
        → ((n : ℤ) × (e.event_time_ms ≡ some (whole n)) × (integer_at payload "E" ≡ ok n))
        → e.event_id ≡ some (written common.event_id)
        → e.received_time_ns ≡ some (whole (pos common.received_time_ns))
        → e.stream_name ≡ name
        → IsFrom common name payload e
    is_from e c s n i a f = record {
      conforms = c;
      from_stream = f;
      same_id = i;
      same_symbol = s;
      same_time = n;
      same_arrival = a;
    }

    book_ticker-IsFrom : Returns From (parse_book_ticker lib name payload common)
    unfolding parse_book_ticker column_of stream_schema
    book_ticker-IsFrom = Returns-bind From _ _ (λ _ _. Returns-bind From _ _ (λ time is_time.
        Returns-bind From _ _ (λ _ _. Returns-bind From _ _ (λ _ _. Returns-bind From _ _ (λ _ _.
          Returns-bind From _ _ (λ _ _. Returns-bind From _ _ (λ symbol is_symbol.
            Returns-bind From _ _ (λ _ _. Returns-bind From _ _ (λ _ _.
              is_from _ (ground arith) (symbol, refl, is_symbol) (time, refl, is_time) refl refl
                refl)))))))))

    aggregate_trade-IsFrom : Returns From (parse_aggregate_trade lib name payload common)
    unfolding parse_aggregate_trade column_of stream_schema
    aggregate_trade-IsFrom = Returns-bind From _ _ (λ _ _. Returns-bind From _ _ (λ time is_time.
        Returns-bind From _ _ (λ _ _. Returns-bind From _ _ (λ _ _. Returns-bind From _ _ (λ _ _.
          Returns-bind From _ _ (λ symbol is_symbol. Returns-bind From _ _ (λ _ _.
            Returns-bind From _ _ (λ _ _. Returns-bind From _ _ (λ _ _.
              Returns-bind From _ _ (λ _ _.
                is_from _ (ground arith) (symbol, refl, is_symbol) (time, refl, is_time) refl refl
                  refl))))))))))

    mark_price-IsFrom : Returns From (parse_mark_price lib name payload common)
    unfolding parse_mark_price column_of stream_schema
    mark_price-IsFrom = Returns-bind From _ _ (λ _ _. Returns-bind From _ _ (λ time is_time.
        Returns-bind From _ _ (λ _ _. Returns-bind From _ _ (λ _ _. Returns-bind From _ _ (λ _ _.
          Returns-bind From _ _ (λ _ _. Returns-bind From _ _ (λ symbol is_symbol.
            Returns-bind From _ _ (λ _ _.
              is_from _ (ground arith) (symbol, refl, is_symbol) (time, refl, is_time) refl refl
                refl))))))))

    kline-IsFrom : Returns From (parse_kline lib name payload common)
    unfolding parse_kline column_of stream_schema
    kline-IsFrom = Returns-bind From _ _ (λ _ _. Returns-bind From _ _ (λ time is_time.
        Returns-bind From _ _ (λ _ _. Returns-bind From _ _ (λ _ _. Returns-bind From _ _ (λ _ _.
          Returns-bind From _ _ (λ _ _. Returns-bind From _ _ (λ _ _. Returns-bind From _ _ (λ _ _.
            Returns-bind From _ _ (λ _ _. Returns-bind From _ _ (λ _ _.
              Returns-bind From _ _ (λ _ _. Returns-bind From _ _ (λ _ _.
                Returns-bind From _ _ (λ _ _. Returns-bind From _ _ (λ symbol is_symbol.
                  Returns-bind From _ _ (λ _ _. Returns-bind From _ _ (λ _ _.
                    Returns-bind From _ _ (λ _ _. Returns-bind From _ _ (λ _ _.
                      is_from _ (ground arith) (symbol, refl, is_symbol) (time, refl, is_time) refl
                        refl refl))))))))))))))))))

    parse_event-IsFrom : Returns From (parse_event lib name payload common)
    unfolding parse_event
    parse_event-IsFrom =
        ground (arith, book_ticker-IsFrom, aggregate_trade-IsFrom, mark_price-IsFrom, kline-IsFrom)

  -- The message is an object with a stream and its payload, whose symbol is that of the stream, and
  -- the event is from them.
  pub record IsEventOf (r : Receipt) (document : Members) (e : CanonicalStreamEvent lib.Float)
      : Type 0 where
    pub name : String
    pub payload : Members
    pub streamed : get "stream" document ≡ some (text name)
    pub carried : get "data" document ≡ some (Json.object payload)
    pub addressed : get "s" payload ≡ some (text (lib.upper (before_at name)))
    pub produced : IsFrom (common_of lib r name payload) name payload e

  payload-IsFrom :
      (r : Receipt) (name : String) (payload : Members)
      → Returns
          (λ e.
            (get "s" payload ≡ some (text (lib.upper (before_at name))))
            × IsFrom (common_of lib r name payload) name payload e)
          (parse_payload lib r name payload)
  unfolding parse_payload
  payload-IsFrom r name payload =
      let symbol = lib.upper (before_at name) in
      Returns-bind _ _ _ (λ _ _. Returns-bind _ _ _ (λ _ matches.
        Returns-map (parse_event lib name payload (common_of lib r name payload))
          (λ e from. (is_text_iff symbol (get "s" payload) (ground (arith, matches)), from))
          (parse_event-IsFrom name payload (common_of lib r name payload))))

  stream-IsEventOf :
      (r : Receipt) (document : Members) (stream data_ : Option Json)
      → get "stream" document ≡ stream
      → get "data" document ≡ data_
      → Returns (IsEventOf r document) (parse_stream lib r stream data_)
  stream-IsEventOf r document (some (text name)) (some (Json.object payload)) named carries =
      Returns-map (parse_payload lib r name payload)
        (λ e (addressed, from). record {
          name = name;
          payload = payload;
          streamed = named;
          carried = carries;
          addressed = addressed;
          produced = from;
        })
        (payload-IsFrom r name payload)
  stream-IsEventOf r document _ _ named carries = tt

  -- What a document that is not an acknowledgement gives.
  OfDocument : Receipt → Json → Option (CanonicalStreamEvent lib.Float) → Type 0
  OfDocument r json none = Unit
  OfDocument r json (some e) =
      (document : Members) × (json ≡ Json.object document) × IsEventOf r document e

  document-OfDocument :
      (r : Receipt) (json : Json) → Returns (OfDocument r json) (parse_document lib r json)
  unfolding OfDocument
  document-OfDocument r (Json.object document) =
      elim (Bool-cases (is_some (get "result" document) && is_some (get "id" document))) [
        | inl acknowledged ↦ rw acknowledged tt
        | inr other ↦ rw other (
            Returns-bind _ _ _ (λ e is_e.
              (document, refl, Returns-at _ _ (stream-IsEventOf r document _ _ refl refl) is_e)))
      ]
  document-OfDocument r _ = tt

  -- An event that a message gives has the columns of its stream's schema, in their order and each
  -- with a value of the kind of its column, a text, an integer, a float or a flag (that an integer
  -- fits the width of its column is not stated); its symbol and its time are those of the payload, whose symbol is that
  -- of the stream's name in upper case; its id is the hash of the stream's name and the payload.
  pub parse_combined_message-IsEventOf :
      (r : Receipt) (message : String) {e : CanonicalStreamEvent lib.Float}
      → parse_combined_message lib r message ≡ ok (some e)
      → (document : Members) × (lib.loads message ≡ some (Json.object document))
        × IsEventOf r document e
  unfolding parse_combined_message OfDocument
  parse_combined_message-IsEventOf r message {e} h = elim (Option-cases (lib.loads message)) [
    | inl invalid ↦ ground (arith, invalid)
    | inr (json, loaded) ↦
        let returned : parse_document lib r json ≡ ok (some e) =
          rw (loaded, parse_combined_message) at h in
        let (document, is_object, from) =
          Returns-at (OfDocument r json) _ (document-OfDocument r json) returned in
        (document, loaded ∙ ap some is_object, from)
  ]
