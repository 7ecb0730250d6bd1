-- ===== src/Lib.antt =====
-- opkssh: SSH logins with OpenID Connect.
--
-- A user logs in with an OpenID provider and gets an SSH certificate that carries a PK Token
-- (sshcert). On the server sshd calls `opkssh verify` (commands/verify.go), which reads the token
-- from the certificate, has it verified, asks the policy whether the identity may log in as the
-- user (policy/enforcer.go), and prints a line for sshd. The policy is read from the system file
-- and from a file of the user (policy/policyloader.go, policy/multipolicyloader.go), both tables
-- of rows (policy/files/table.go, policy/policy.go) that must have the right permission bits
-- (policy/files). Policy plugins (policy/plugins) are commands that may allow a login beside the
-- rows. The providers file (policy/providerloader.go) says which providers are trusted, and the
-- validator (policy/validator.go) checks the rows of a policy against it. On the client, a login
-- (commands/login.go) chooses a provider (commands/config/providerconfig.go) and writes the key and
-- its certificate below .ssh, and a logout (commands/logout.go) removes them.
--
-- Files:
-- Table: policy/files/table.go. ConfigLog: policy/files/configlog.go.
-- Policy: policy/policy.go (`FromTable`, `AddAllowedPrincipal`, `ToTable`).
-- Files: policy/files/permschecker.go and fileloader.go; Files/Memory is a file system in memory
-- that has the laws the theorems ask for.
-- Loader: policy/policyloader.go and policy/multipolicyloader.go.
-- Add: commands/add.go.
-- Plugins: policy/plugins/plugins.go and pluginconfig.go, with the run of the commands in
-- Plugins/Execution; Plugins/Tokens: policy/plugins/tokens.go.
-- Enforcer: policy/enforcer.go, with `CheckPolicy` in Enforcer/Check.
-- SshCert: sshcert/sshcert.go.
-- Login: commands/login.go, with the lifetime in Login/Lifetime, the keys in Login/Keys and the
-- choice of a provider in Login/Provider. Logout: commands/logout.go.
-- ReadHome: commands/readhome.go. Permissions: commands/permissions.go with
-- policy/files/fileperms_ops.go.
-- ClientConfig: commands/config/providerconfig.go, with `ToProvider` in ClientConfig/Op.
-- Audit: commands/audit.go, auditresults.go and permcheck.go.
-- Verify: commands/verify.go and commands/config/server_config.go.
-- Validator: policy/validator.go. Providers: policy/providerloader.go.
-- Base and Text: shared types, Go's strings and slices. Tests: concrete inputs.
-- The modules below one of these hold its proofs, named for what they show.
--
-- How the code is read: a string is the list of its bytes. A function with an error returns a
-- `Result` or an `Option`, whose errors are constructors for the code's messages; a function that
-- can panic returns a `Run` or a `Check`. State is passed along: the file system, the log of
-- configuration problems, the environment of the process. The loops are recursions on their lists,
-- so nothing runs on fuel. A Go map is a list of keys with values, and a loop over a map takes its
-- order; the theorems hold for each list, so for each order. A principal has at most 129
-- characters, of which `tail_matches` counts the 127 in the middle.
--
-- Parameters: the file system (afero), the `stat` command, shell quoting, JSON and YAML, base64,
-- Unicode case folding, `path.Match`, users and paths of the operating system, the libraries of
-- OpenPubkey, JWK and SSH, and the request to the userinfo endpoint.
--
-- Not modelled: logging, the texts of errors, white space beyond ASCII in `TrimSpace`, access
-- control lists and Windows, signing of certificates, the decoding of YAML, the requests of
-- a login to the provider and to the agent, and the command inspect.
mod Base
pub mod Tests
pub mod Text
pub mod Table
pub mod ConfigLog
pub mod Policy
pub mod Files
pub mod Loader
pub mod ClientConfig
pub mod Login
pub mod Logout
pub mod ReadHome
pub mod Permissions
pub mod Plugins
pub mod Add
pub mod Enforcer
pub mod SshCert
pub mod Verify
pub mod Validator
pub mod Audit
pub mod Providers
