-- ===== src/Resolver/Routes.antt =====
-- The routes that the constructor of `Resolver` registers, src/nix/module/builtin/service/resolver.cxx,
-- with their handlers numbered in that order.
use nixsrv.Prelude.{ℕ, String, List, [], ◌∷◌}
use nixsrv.Auth.{api_private}
use nixsrv.Dispatcher.{Route, sync}

abbrev private_route : String → ℕ → String → Route
private_route name handler description = record {
  route = name;
  handler = handler;
  access_modifier = api_private;
  processing_type = sync;
  description = description;
}

unfoldable pub routes : List Route
routes =
    private_route "node/bind" 1 "Bind node name to address"
    ∷ private_route "node/resolve" 2 "Resolve node's address"
    ∷ private_route "node/unbind" 3 "Unbind node's address"
    ∷ private_route "service/bind" 4 "Register a node that serves given implementation "
    ∷ private_route "service/resolve" 5 "Resolve a node that serves given implementation "
    ∷ private_route "service/unbind" 6 "Unbind a node that serves given implementation "
    ∷ []
