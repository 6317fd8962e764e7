-- ===== src/Adapters/Mock/Protocols.antt =====
-- adapters/binance/mock.py: `MockBinanceAdapter` keeps all the protocols of adapters/interfaces.py.
use safe_signal_trader_v.Outcome.{Result, ok}
use safe_signal_trader_v.Adapters.Capabilities
use safe_signal_trader_v.Adapters.Interfaces.{
  ExchangeCapabilities, MarketDataAdapter, AccountAdapter, ExecutionAdapter, ProtectionAdapter,
  StreamingAdapter, PnLAdapter,
}
use safe_signal_trader_v.Adapters.Mock.State
use safe_signal_trader_v.Adapters.Mock.State.{Order, Position, Exchange}
use safe_signal_trader_v.Adapters.Mock.Market
use safe_signal_trader_v.Adapters.Mock.Market.{Ticker}
use safe_signal_trader_v.Adapters.Mock.Orders
use safe_signal_trader_v.Adapters.Mock.Stops

-- The properties of the class; `supports_…` and `max_leverage` are read off `capabilities`.
unfoldable pub capabilities_of : Exchange → ExchangeCapabilities
capabilities_of x = record {
  exchange_id = x.exchange_id;
  supports_user_stream = x.capabilities.supports_user_stream;
  supports_reduce_only = x.capabilities.supports_reduce_only;
  supports_trailing_stop = x.capabilities.supports_trailing_stop;
  supports_position_mode_hedge = x.capabilities.supports_position_mode_hedge;
  max_leverage = x.capabilities.max_leverage;
  supports_protection_replace = Capabilities.supports_protection_replace x.capabilities;
}

abbrev pub mock_market_data : MarketDataAdapter Exchange Ticker
mock_market_data = record {
  get_symbol_rules = λ symbol x. Market.get_symbol_rules symbol;
  get_mark_price = Market.get_mark_price;
  get_ticker = Market.get_ticker;
}

abbrev pub mock_account : AccountAdapter Exchange Position
mock_account = record {
  get_balance = Market.get_balance;
  get_positions = Market.get_positions;
  set_leverage = λ symbol leverage x. (x, Market.set_leverage leverage x);
}

abbrev pub mock_execution : ExecutionAdapter Exchange Order
mock_execution = record {
  place_order = λ now symbol side order_type quantity price client_order_id reduce_only.
      Orders.place_order now (record {
        symbol = symbol;
        side = side;
        order_type = order_type;
        quantity = quantity;
        price = price;
        client_order_id = client_order_id;
        reduce_only = reduce_only;
      });
  cancel_order = λ now symbol order_id client. Orders.cancel_order now order_id client;
  get_order = λ symbol order_id client. Orders.get_order order_id client;
}

-- the answer of a method that does not raise
abbrev answered_with {ℓ} : {A : Type ℓ} → Exchange × A → Exchange × Result A
answered_with (x, a) = (x, ok a)

abbrev pub mock_protection : ProtectionAdapter Exchange Order
mock_protection = record {
  place_stop = λ now symbol side stop_price quantity client_order_id reduce_only x. answered_with (
      Stops.place_stop now
        (record {
          symbol = symbol;
          side = side;
          stop_price = stop_price;
          quantity = quantity;
          client_order_id = client_order_id;
          reduce_only = reduce_only;
        })
        x);
  replace_stop = λ now symbol oid new_stop_price quantity client_order_id x.
      answered_with (Stops.replace_stop now symbol oid new_stop_price quantity client_order_id x);
  cancel_protection = Stops.cancel_protection;
}

abbrev pub mock_streaming : StreamingAdapter Exchange
mock_streaming = record {
  connect = λ x. (State.connect x, ok tt);
  disconnect = λ x. (State.disconnect x, ok tt);
  subscribe_orders = λ x. (x, State.subscribe_orders x);
}

abbrev pub mock_pnl : PnLAdapter Exchange
mock_pnl = record {
  get_realized_pnl = Market.get_realized_pnl;
  get_unrealized_pnl = Market.get_unrealized_pnl;
}
