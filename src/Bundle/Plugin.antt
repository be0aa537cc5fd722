-- ===== src/Bundle/Plugin.antt =====
-- pkg/bundler/bundler_interface.go: the plugin as `setup` and the program that it starts see it.
use mactainer.Base.{ℕ, String, string_eq, Option, none, some}
use mactainer.Base.Dict
use mactainer.Base.Dict.{Dict}
use mactainer.Fs.{FilePath, Fs}

-- `Unbundler`, by its one method
abbrev pub Unbundler : Type 0
Unbundler = FilePath → Fs String

-- `UnbundlerPlugin`: the side of `setup` has no `Impl`.
pub record UnbundlerPlugin : Type 0 where
  pub impl : Option Unbundler

pub record UnbundlerRpcServer : Type 0 where
  pub impl : Option Unbundler

-- `UnbundlerPlugin.Server`
abbrev pub server : UnbundlerPlugin → UnbundlerRpcServer
server p = record { impl = p.impl }

-- `UnbundlerRPCServer.Unbundle`, which returns no error of its own; `none` is the panic of a nil
-- `Impl`.
abbrev pub serve_unbundle : UnbundlerRpcServer → FilePath → Option (Fs String)
serve_unbundle s path = elim s.impl [ none ↦ none | some unbundle ↦ some (unbundle path) ]

-- `plugin.HandshakeConfig` of go-plugin
pub record HandshakeConfig : Type 0 where
  pub protocol_version : ℕ
  pub magic_cookie_key : String
  pub magic_cookie_value : String

abbrev pub PluginMap : Type 0
PluginMap = Dict String UnbundlerPlugin

-- `plugin.ServeConfig`, and `plugin.ClientConfig` with the program of its `Cmd`
pub record ServeConfig : Type 0 where
  pub handshake_config : HandshakeConfig
  pub plugins : PluginMap

pub record ClientConfig : Type 0 where
  pub handshake_config : HandshakeConfig
  pub plugins : PluginMap
  pub cmd : FilePath

abbrev serve_found : Option UnbundlerPlugin → FilePath → Option (Fs String)
serve_found none path = none
serve_found (some p) path = serve_unbundle (server p) path

-- What a call of "Plugin.Unbundle" sets off in a program that serves these plugins, when the client
-- was given the one of this name.
unfoldable pub serve_call : ServeConfig → String → FilePath → Option (Fs String)
unfolding Dict.lookup
serve_call served name path = serve_found (Dict.lookup name served.plugins) path
