-- ===== src/Lib.antt =====
-- Models of the Kong agents of Amplify Central and what makes them correct.
--
-- The repository holds two agents. The discovery agent (pkg/discovery) reads the services, routes
-- and plugins of a Kong gateway and provisions applications, access and credentials in it when
-- Central asks for them. The traceability agent (pkg/traceability) receives the gateway's request
-- logs and sends events to Central. Both have a configuration that is read and checked at start.
--
-- Which file models which code:
--   Common             pkg/common/common.go: attribute names, context values, the workspace prefix
--   Config             pkg/discovery/config/config.go: ParseProperties and ValidateCfg
--   Kong.Klib          the types and calls of github.com/kong/go-kong that the code uses
--   Kong.Plugins       pkg/discovery/kong/plugins.go: mostSpecific and GetEffectivePlugins
--   Kong.Selection     pkg/discovery/kong/provisioning.go: getSpecificPlugin
--   Kong.AuthPlugins   pkg/discovery/kong/authplugins.go
--   Kong.Client        pkg/discovery/kong/kongclient.go: the clients of the workspaces
--   Kong.Connection    pkg/discovery/kong/kongclient.go: NewKongClient and the listings
--   Kong.Spec          pkg/discovery/kong/kongclient.go: the specification of a service
--   Kong.Consumers     pkg/discovery/kong/provisioning.go: consumers and their credentials
--   Kong.Acl           pkg/discovery/kong/provisioning.go: AddRouteACL and RemoveRouteACL
--   Kong.Quota         pkg/discovery/kong/provisioning.go: AddQuota
--   Agent.Route        pkg/discovery/agent/route.go: the endpoints of a route
--   Agent.GlobalAcl    pkg/discovery/agent/agent.go: the check for a global ACL plugin
--   Agent.Start        pkg/discovery/agent/agent.go: NewAgent
--   Agent.Command      pkg/discovery/cmd/cmd.go: run and initConfig
--   Agent.Security     pkg/discovery/agent/agent.go: the security of a specification
--   Agent.Publish      pkg/discovery/agent/agent.go: KongAPI, the cache and the service body
--   Agent.Service      pkg/discovery/agent/agent.go: processSingleKongService and what it calls
--   Agent.Discovery    pkg/discovery/agent/agent.go: DiscoverAPIs
--   Agent.Registered   what discovery publishes beside what the provisioner registers
--   Subscription.Access       pkg/discovery/subscription/access/access.go
--   Subscription.Application  pkg/discovery/subscription/application/application.go
--   Subscription.Credential   pkg/discovery/subscription/credential: credential.go and builder.go
--   Subscription.Register     pkg/discovery/subscription/register.go
--   Subscription.Provisioner  pkg/discovery/subscription/provision.go
--   Traceability.Beater       pkg/traceability/beater/beater.go
--   Traceability.Config       pkg/traceability/config/config.go
--   Traceability.Command      pkg/traceability/cmd/cmd.go: initConfig
--   Traceability.Entry, Handler, Transaction, Status
--                      pkg/traceability/processor: definitions.go, handler.go and metrics.go,
--                      transaction.go, util.go
-- Prelude holds what they share. The definitions have the functions' names in snake case; a part of
-- a function that stands alone here says above it which part it is. A pointer is an Option, a pair of
-- a value and an error is a Result, and a nil dereference is the panic of Ret. Code that changes
-- state is a function of the state that gives a Ret and the state after it (Prelude.Exec).
--
-- Parameters: go-kong's Admin API (Kong.Klib.AdminApi, Kong.Connection.Listings), over an unknown
-- state of the gateway, with its documented behaviour as the laws Kong.Acl.Store.PluginStore and
-- Kong.Consumers.Behaviour.ConsumerStore, which Kong.Acl.Memory and Kong.Consumers.Roster meet;
-- mapstructure's decoder and encoding/json (Kong.AuthPlugins.Json); files and HTTP
-- (Kong.Spec.Outside); net/url's parser and the TLS settings; the SDK's constants
-- (Subscription.Sdk.Names), its builders, specification processors and checksums
-- (Agent.Sdk.Platform), its cache (Agent.Publish.CacheApi, with the law
-- Agent.Publish.Change.LawfulCache, which Agent.Samples meets), its sampling and event generator
-- (Traceability.Sdk.Sdk), its filters and registrations (Agent.Start.Registry); the process and the
-- publisher of the traceability agent (Traceability.Beater.Host); UUIDs. What discovery asks of the
-- gateway is Agent.Service.Outside, and StandsStill says that it does not change. Calls of these
-- may fail and do not panic. A Go map is an association list; its order is an order in which range
-- may visit it. The order in which a route's plugins are visited is a parameter of discovery, since
-- the published API depends on it, and each discovery may have another one; that in which an
-- application's consumers are deleted is a parameter too (`visit`).
--
-- The discovery agent's state (Agent.Service.State) is its cache and what is outside of it. The
-- goroutines of a workspace's services run one after the other in an order that is a parameter, those
-- of the workspaces in the order in which they are started; a specification's processor, which the
-- routes of a service share, is handed from route to route. The traceability server
-- (Traceability.Beater.Server) is a state with the goroutines' data, the counter of a WaitGroup and
-- how far Run and the shutdown handler are; its moves come in any order, and a move that has to wait
-- is none. The end of the process cuts off the goroutines that still run: their data are lost. Loops go over lists. The discovery command's loop has none to go over, and its polls are
-- counted: run is looked at after that many. Only the wait of New for the health checks has fuel: the
-- number of checks that are looked at, of which the theorem takes enough to reach one that is OK.
--
-- Not modelled: logging and the contexts that only carry it; timeouts, the time between polls and the
-- TLS transport; the main packages and the registration of the commands, which hand functions to the
-- SDK; Run's failure to connect to the publisher.
mod Prelude
pub mod Common
pub mod Config
pub mod Kong
pub mod Agent
pub mod Subscription
pub mod Traceability
